-- ===== src/HttpServer/Static/Safety.antt =====
-- What the proxy of the frontend's files fetches.
use Prim.Native.String.{◌++◌ as concat}
use ios_webkit_debug_proxy_r.Base.{
  ℕ, String, ◌≡◌, ◌≢◌, ◌↔◌, inl, inr, refl, sym, ap, ◌∙◌, Bool, true, false, not, ◌&&◌, ◌||◌, ◌==◌,
  nat_eq, leb, Option, none, some, arith, if◌then◌else◌, Bool-cases,
}
use ios_webkit_debug_proxy_r.HttpServer.Texts.{
  all_chars, contains_dots, is_empty_str, starts_with, last_part,
}
use ios_webkit_debug_proxy_r.HttpServer.Texts.Dots.{contains_dots-concat, contains_dots-split}
use ios_webkit_debug_proxy_r.HttpServer.Static.{
  UrlCrate, Decision, answers, fetches, is_safe_char, is_http, target_url, static_decision, refuse,
  directory,
}

-- There is a frontend with an http URL that parses, and the path has safe characters only and
-- nowhere two dots; the URL is the file beside the frontend's, or the frontend's own for no path.
pub record Allowed (u : UrlCrate) (frontend : Option String) (path url : String) : Type 0 where
  pub fe_url : String
  pub parsed : u.Url
  pub enabled : frontend ≡ some fe_url
  pub http : (starts_with "http://" fe_url || starts_with "https://" fe_url) ≡ true
  pub parses : u.parse fe_url ≡ some parsed
  pub safe :
      all_chars
        (λ c.
          (leb b'0' c && leb c b'9')
          || (leb b'A' c && leb c b'Z')
          || (leb b'a' c && leb c b'z')
          || c == b'-'
          || c == b'.'
          || c == b'/'
          || c == b'_')
        path
      ≡ true
  pub no_dots : (before behind : String) → path ≢ concat before (concat ".." behind)
  pub at :
      url
      ≡ u.to_string (
          u.set_path parsed (
            concat
              (directory (u.path parsed))
              (if is_empty_str path then last_part "/" (u.path parsed) else path)))

contains_dots-none :
    (path : String)
    → ((before behind : String) → path ≢ concat before (concat ".." behind))
    → contains_dots path ≡ false
contains_dots-none path clean = elim (Bool-cases (contains_dots path)) [
  | inl found ↦
      let (before, behind, at) = contains_dots-split path found in absurd (clean before behind at)
  | inr lacks ↦ lacks
]

abbrev is_fetch : Decision → Bool
is_fetch (answers response) = false
is_fetch (fetches url) = true

abbrev fetched : Decision → String
fetched (answers response) = ""
fetched (fetches url) = url

-- An empty path is safe, so that the handler's second test is the first alone.
all_chars-empty :
    (path : String)
    → (not (all_chars is_safe_char path) && not (is_empty_str path)) ≡ false
    → all_chars is_safe_char path ≡ true
unfolding all_chars
all_chars-empty String.[] h = refl
all_chars-empty (String.◌∷◌ c path) h = ground arith

target_url_lem :
    (u : UrlCrate) (parsed : u.Url) (path : String)
    → target_url u parsed path
      ≡ u.to_string (
          u.set_path parsed (
            concat
              (directory (u.path parsed))
              (if is_empty_str path then last_part "/" (u.path parsed) else path)))
unfolding target_url
target_url_lem u parsed path =
    ap (λ x. u.to_string (u.set_path parsed x)) (if-concat (is_empty_str path))
  where
    if-concat :
        (t : Bool)
        → (if t
            then concat (directory (u.path parsed)) (last_part "/" (u.path parsed))
            else concat (directory (u.path parsed)) path)
          ≡ concat (directory (u.path parsed)) (if t then last_part "/" (u.path parsed) else path)
    if-concat true = refl
    if-concat false = refl

module _ (u : UrlCrate) where
  refuses : (status : ℕ) (message url : String) → refuse status message ≢ fetches url
  refuses status message url h = absurd (ground (arith, ap is_fetch h))

  -- The handler's tests in their order, on their results.
  abbrev decide : Bool → Bool → Bool → Option u.Url → String → Decision
  decide http dots bad parsed path =
      if not http
      then refuse 404 "Frontend URL is not http(s)://, cannot proxy."
      else if dots
      then refuse 403 "Invalid path"
      else if bad
      then refuse 403 "Invalid path"
      else elim parsed [
        | some x ↦ fetches (target_url u x path)
        | none ↦ refuse 502 "Invalid frontend URL"
      ]

  decide-fetches :
      (http dots bad : Bool) (parsed : Option u.Url) (path url : String)
      → decide http dots bad parsed path ≡ fetches url
      → (http ≡ true)
        × (dots ≡ false)
        × (bad ≡ false)
        × ((x : u.Url) × (parsed ≡ some x) × (url ≡ target_url u x path))
  decide-fetches false dots bad parsed path url h = absurd (refuses _ _ url h)
  decide-fetches true true bad parsed path url h = absurd (refuses _ _ url h)
  decide-fetches true false true parsed path url h = absurd (refuses _ _ url h)
  decide-fetches true false false none path url h = absurd (refuses _ _ url h)
  decide-fetches true false false (some x) path url h =
      (refl, refl, refl, (x, refl, ap fetched (sym h)))

  static_decision-fetched :
      (frontend : Option String) (path url : String)
      → static_decision u frontend path ≡ fetches url
      → Allowed u frontend path url
  unfolding static_decision
  static_decision-fetched none path url h = absurd (refuses _ _ url h)
  static_decision-fetched (some fe_url) path url h =
      let bad : Bool = not (all_chars is_safe_char path) && not (is_empty_str path) in
      let (http, dots, good, (parsed, parses, at)) =
        decide-fetches (is_http fe_url) (contains_dots path) bad (u.parse fe_url) path url h in
      record {
        fe_url = fe_url;
        parsed = parsed;
        enabled = refl;
        http = http;
        parses = parses;
        safe = all_chars-empty path good;
        no_dots = λ before behind split.
            let found : contains_dots path ≡ true =
              ap contains_dots split ∙ contains_dots-concat before behind in
            absurd (ground (arith, found, dots));
        at = at ∙ target_url_lem u parsed path;
      }

  static_decision-Allowed :
      (frontend : Option String) (path url : String)
      → Allowed u frontend path url
      → static_decision u frontend path ≡ fetches url
  unfolding static_decision
  static_decision-Allowed frontend path url v =
      let dots : contains_dots path ≡ false = contains_dots-none path v.no_dots in
      rw (
        v.enabled,
        v.http,
        v.safe,
        dots,
        v.parses,
        v.at,
        sym (target_url_lem u v.parsed path),
        static_decision,
      )

  -- The proxy of the frontend's files makes a request exactly if there is a frontend whose URL
  -- starts with http:// or https:// and parses, and the path has only ASCII letters, digits, -, .,
  -- / and _ and nowhere two dots in a row; the URL that it requests is then the frontend's with
  -- its path replaced by the file in the frontend's directory, or by the frontend's own file where
  -- the path is empty.
  pub static_decision-fetches :
      (frontend : Option String) (path url : String)
      → (static_decision u frontend path ≡ fetches url) ↔ Allowed u frontend path url
  static_decision-fetches frontend path url =
      (static_decision-fetched frontend path url, static_decision-Allowed frontend path url)
