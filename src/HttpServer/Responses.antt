-- ===== src/HttpServer/Responses.antt =====
-- src/http_server.rs: responses as the handlers build them, a status, headers and a body, which axum
-- makes a message of; the headers that all have; the answers for what is not found.
use Prim.Native.String.{◌++◌ as concat}
use ios_webkit_debug_proxy_r.Base.{
  ℕ, String, Bool, true, false, [], Bytes, string_eq, if◌then◌else◌,
}
use ios_webkit_debug_proxy_r.Base.Dict.{HashMap}
use ios_webkit_debug_proxy_r.Base.Dict

pub data Method : Type 0 where
  get : Method
  head : Method
  other : Method

abbrev pub is_head : Method → Bool
is_head head = true
is_head _ = false

pub data Content : Type 0 where
  -- `Html(..)`
  html : String → Content
  text : String → Content
  bytes : Bytes → Content

-- `is_emptied` says that the body of the message is replaced by an empty one.
pub record Response : Type 0 where
  pub status : ℕ
  pub headers : HashMap String String
  pub content : Content
  pub is_emptied : Bool

abbrev pub respond : ℕ → HashMap String String → Content → Response
respond status headers content = record {
  status = status;
  headers = headers;
  content = content;
  is_emptied = false;
}

-- `if method == Method::HEAD { *response.body_mut() = Body::empty(); }`
abbrev pub empty_for_head : Method → Response → Response
empty_for_head method response =
    if is_head method then record response { is_emptied = true } else response

unfoldable pub cors_headers : HashMap String String
cors_headers =
    Dict.insert (Dict.insert [] "Access-Control-Allow-Origin" "*") "Access-Control-Allow-Methods"
      "GET, HEAD"

abbrev pub with_content_type : String → HashMap String String
with_content_type content_type = Dict.insert cors_headers "content-type" content_type

unfoldable pub handle_404 : Method → String → Response
handle_404 method path = empty_for_head method (
    respond 404 (with_content_type "text/html; charset=UTF-8")
      (text (concat "<html><body>404: " (concat path " not found</body></html>"))))

unfoldable pub handle_404_simple : Response
handle_404_simple = respond 404 cors_headers (text "<html><body>404 Not Found</body></html>")
