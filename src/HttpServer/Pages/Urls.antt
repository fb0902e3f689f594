-- ===== src/HttpServer/Pages/Urls.antt =====
-- The URLs of the page lists, and the host in them.
use Prim.Native.String.{◌++◌ as concat}
use text.Mathlib.TextLemmas.{append_assoc, append-nil, nil-append, cons-append}
use ios_webkit_debug_proxy_r.Base.{
  ℕ, ◌^◌, ◌<◌, String, ◌≡◌, ◌↔◌, ap, ◌∙◌, true, Option, none, some, List, [], ◌∷◌, ◌++◌, ◌==◌,
  nat_eq, any, arith,
}
use ios_webkit_debug_proxy_r.Base.Decimal.{to_string}
use ios_webkit_debug_proxy_r.Base.Decimal.Digits.{parse_u32-to_string, number_of-to_string}
use ios_webkit_debug_proxy_r.Device.{parse_device_os_version}
use ios_webkit_debug_proxy_r.HttpServer.{DevicePortState, PageEntry}
use ios_webkit_debug_proxy_r.HttpServer.Connection.{page_num_of, handle_ws_upgrade}
use ios_webkit_debug_proxy_r.HttpServer.Texts.{last_part, rsplit_once}
use ios_webkit_debug_proxy_r.HttpServer.Texts.Splits.{
  Lacks, rsplit_once-Lacks, rsplit_once-concat, rsplit_once-behind, number_of-Lacks,
}
use ios_webkit_debug_proxy_r.HttpServer.Pages.{host_of, web_socket_debugger_url, shown_version}

-- The host in the JSON list's URLs is the host of the request, without its port where it has one;
-- it holds where the port, or a host that stands alone, has no colon.
pub host_of-strips :
    (host : String) (port : Option String)
    → Lacks ":" (elim port [ some p ↦ p | none ↦ host ])
    → host_of (some (elim port [ some p ↦ concat host (concat ":" p) | none ↦ host ])) ≡ host
unfolding host_of
host_of-strips host none h = rw (rsplit_once-Lacks ":" host h, host_of)
host_of-strips host (some p) h =
    rw (cons-append ":" "" p, nil-append p, rsplit_once-concat ":" host p h, host_of)

-- The version numbers that the device list shows are those of parse_device_os_version exactly if
-- the version is below 2 ^ 24.
pub shown_version-fits :
    (version : ℕ) → (shown_version version ≡ parse_device_os_version version) ↔ (version < 2 ^ 24)
unfolding shown_version parse_device_os_version
shown_version-fits version =
    (λ same. ground (arith, ap (λ (t : ℕ × ℕ × ℕ). t.0) same), λ fits. ground (arith, fits))

-- The last part of a path of the pages is the page's number.
last_page :
    (n : ℕ)
    → rsplit_once "/" (concat "/devtools/page/" (concat (to_string n) ""))
      ≡ some ("/devtools/page", to_string n)
last_page n =
    let slash : concat "/devtools/page/" (to_string n)
        ≡ concat "/devtools/page" (String.◌∷◌ "/" (to_string n)) =
      append_assoc "/devtools/page" "/" (to_string n)
      ∙ ap (concat "/devtools/page")
          (cons-append "/" "" (to_string n) ∙ ap (String.◌∷◌ "/") (nil-append (to_string n))) in
    rw (append-nil (to_string n), slash)
      (rsplit_once-concat "/" "/devtools/page" (to_string n)
        (number_of-Lacks n (to_string n) (number_of-to_string n)))

last_part-web_socket_debugger_url :
    (state : DevicePortState) (host : String) (page : PageEntry)
    → last_part "/" (web_socket_debugger_url state host page) ≡ to_string page.page_num
unfolding web_socket_debugger_url
last_part-web_socket_debugger_url state host page =
    let path = last_page page.page_num in
    let port = rsplit_once-behind "/" (to_string state.port) _ _ _ path in
    let colon = rsplit_once-behind "/" ":" _ _ _ port in
    let named = rsplit_once-behind "/" host _ _ _ colon in
    let url = rsplit_once-behind "/" "ws://" _ _ _ named in rw (url, last_part)

any-listed :
    (before after : List PageEntry) (page : PageEntry)
    → any (λ p. p.page_num == page.page_num) (before ++ page ∷ after) ≡ true
any-listed [] after page = ground arith
any-listed (p ∷ before) after page = ground (arith, any-listed before after page)

-- The WebSocket URL that the JSON list shows of a page, with a number of 32 bits, ends in a part
-- that the route reads back as the page's number, and the upgrade for that number finds the page.
pub web_socket_debugger_url-opens :
    (state : DevicePortState) (host : String) (before after : List PageEntry) (page : PageEntry)
    → state.pages ≡ before ++ page ∷ after
    → page.page_num < 2 ^ 32
    → (page_num_of (last_part "/" (web_socket_debugger_url state host page)) ≡ some page.page_num)
      × (handle_ws_upgrade state page.page_num ≡ true)
unfolding page_num_of handle_ws_upgrade
web_socket_debugger_url-opens state host before after page listed fits = (
  rw (last_part-web_socket_debugger_url state host page, page_num_of)
      (parse_u32-to_string page.page_num fits),
  rw (listed, handle_ws_upgrade) (any-listed before after page),
)
