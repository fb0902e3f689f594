-- ===== src/HttpServer/Static.antt =====
-- src/http_server.rs: the proxy of the frontend's files, handle_devtools_static. The `url` crate is a
-- record of its calls; what `reqwest` fetches is an argument.
pub mod Safety
use mathlib.Core.Option
use Prim.Native.Char.{Char, code}
use Prim.Native.String.{◌++◌ as concat}
use ios_webkit_debug_proxy_r.Base.{
  ℕ, String, Bool, true, false, not, ◌&&◌, ◌||◌, Option, none, some, List, [], ◌∷◌, ◌==◌, nat_eq,
  string_eq, ltb, leb, if◌then◌else◌, Bytes,
}
use ios_webkit_debug_proxy_r.Base.Dict.{HashMap}
use ios_webkit_debug_proxy_r.Base.Dict
use ios_webkit_debug_proxy_r.HttpServer.{DevicePortState}
use ios_webkit_debug_proxy_r.HttpServer.Texts.{
  all_chars, rsplit_once, last_part, contains_dots, strip_prefix, starts_with, is_empty_str,
}
use ios_webkit_debug_proxy_r.HttpServer.Responses.{
  Method, is_head, Response, text, bytes, respond, cors_headers,
}

pub record UrlCrate : Type 1 where
  pub Url : Type 0
  -- `Url::parse`; `none` is an error.
  pub parse : String → Option Url
  pub path : Url → String
  pub set_path : Url → String → Url
  pub to_string : Url → String

-- `reqwest`: the status, the content type and the bytes if they can be read, or an error's text.
pub data Fetched : Type 0 where
  answered : ℕ → Option String → Option Bytes → Fetched
  failed : String → Fetched

-- A handler answers by itself or fetches a URL.
pub data Decision : Type 0 where
  answers : Response → Decision
  fetches : String → Decision

abbrev pub is_ascii_alphanumeric : ℕ → Bool
is_ascii_alphanumeric c =
    (leb b'0' c && leb c b'9') || (leb b'A' c && leb c b'Z') || (leb b'a' c && leb c b'z')

abbrev pub is_safe_char : ℕ → Bool
is_safe_char c = is_ascii_alphanumeric c || c == b'-' || c == b'.' || c == b'/' || c == b'_'

abbrev pub refuse : ℕ → String → Decision
refuse status message = answers (respond status cors_headers (text message))

-- The part of the path that names the file; empty if the prefix is missing.
abbrev pub static_path : String → String
static_path resource = elim (strip_prefix "/devtools/" resource) [ some path ↦ path | none ↦ "" ]

-- The directory of a path, with the slash at its end.
abbrev pub directory : String → String
directory path = elim (rsplit_once "/" path) [ some (dir, file) ↦ concat dir "/" | none ↦ "/" ]

abbrev pub is_http : String → Bool
is_http url = starts_with "http://" url || starts_with "https://" url

module _ (u : UrlCrate) where
  -- The URL on the frontend's server.
  unfoldable pub target_url : u.Url → String → String
  target_url parsed path =
      let dir : String = directory (u.path parsed) in
      let file : String = last_part "/" (u.path parsed) in
      u.to_string
        (u.set_path parsed (if is_empty_str path then concat dir file else concat dir path))

  -- The handler up to the request to the frontend's server.
  unfoldable pub static_decision : Option String → String → Decision
  static_decision none path = refuse 404 "Frontend is disabled."
  static_decision (some fe_url) path =
      if not (is_http fe_url)
      then refuse 404 "Frontend URL is not http(s)://, cannot proxy."
      else if contains_dots path
      then refuse 403 "Invalid path"
      else if not (all_chars is_safe_char path) && not (is_empty_str path)
      then refuse 403 "Invalid path"
      else elim (u.parse fe_url) [
        | some parsed ↦ fetches (target_url parsed path)
        | none ↦ refuse 502 "Invalid frontend URL"
      ]

  -- `StatusCode::from_u16(..).unwrap_or(BAD_GATEWAY)`
  abbrev pub status_of : ℕ → ℕ
  status_of status = if leb 100 status && ltb status 1000 then status else 502

  unfoldable pub static_response : Fetched → Response
  static_response (answered status content_type body) =
      respond (status_of status)
        (elim content_type [
          | some ct ↦ Dict.insert cors_headers "content-type" ct
          | none ↦ cors_headers
        ])
        (bytes (elim body [ some b ↦ b | none ↦ [] ]))
  static_response (failed e) =
      respond 502 cors_headers (text (concat "Unable to fetch from frontend: " e))

  -- `fetch` is a request by HEAD or by GET.
  unfoldable pub handle_devtools_static :
      (Bool → String → Fetched) → Method → String → DevicePortState → Response
  handle_devtools_static fetch method resource state =
      elim (static_decision state.frontend (static_path resource)) [
        | answers response ↦ response
        | fetches url ↦ static_response (fetch (is_head method) url)
      ]
