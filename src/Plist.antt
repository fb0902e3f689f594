-- ===== src/Plist.antt =====
-- The `plist` crate, which the program only calls: its values and dictionaries with the calls that
-- the source makes, as a parameter. `Laws` states the crate's documented behaviour.
pub mod Sample
use ios_webkit_debug_proxy_r.Base.{
  ℕ, String, ◌≡◌, Bool, false, Option, none, some, List, ◌==◌, string_eq, if◌then◌else◌, Bytes,
  is_empty,
}
use ios_webkit_debug_proxy_r.Error.{ResultOf, ok}

-- The error of `from_bytes` is given by its `Display` text.
pub record Plist : Type 1 where
  pub Value : Type 0
  pub Dictionary : Type 0
  pub string : String → Value
  pub of_data : Bytes → Value
  pub integer : ℕ → Value
  pub boolean : Bool → Value
  pub dictionary : Dictionary → Value
  pub as_string : Value → Option String
  pub as_data : Value → Option Bytes
  pub as_unsigned_integer : Value → Option ℕ
  pub as_boolean : Value → Option Bool
  pub as_dictionary : Value → Option Dictionary
  pub new : Dictionary
  pub insert : Dictionary → String → Value → Dictionary
  pub get : Dictionary → String → Option Value
  pub iter : Dictionary → List (String × Value)
  pub from_bytes : Bytes → ResultOf String Value
  pub to_writer_binary : Value → Bytes

module _ (p : Plist) where
  open p use {
    Value, Dictionary, string, of_data, integer, boolean, dictionary, as_string, as_data,
    as_unsigned_integer, as_boolean, as_dictionary, new, insert, get, from_bytes, to_writer_binary,
  }

  pub record Laws : Type 0 where
    pub as_string-string : (s : String) → as_string (string s) ≡ some s
    pub as_data-of_data : (b : Bytes) → as_data (of_data b) ≡ some b
    pub as_unsigned_integer-integer : (n : ℕ) → as_unsigned_integer (integer n) ≡ some n
    pub as_boolean-boolean : (b : Bool) → as_boolean (boolean b) ≡ some b
    pub as_dictionary-dictionary : (d : Dictionary) → as_dictionary (dictionary d) ≡ some d
    pub get-new : (k : String) → get new k ≡ none
    pub get-insert :
        (d : Dictionary) (k j : String) (v : Value)
        → get (insert d k v) j ≡ (if k == j then some v else get d j)
    pub from_bytes-to_writer_binary : (v : Value) → from_bytes (to_writer_binary v) ≡ ok v
    -- A binary plist starts with a magic number.
    pub is_empty-to_writer_binary : (v : Value) → is_empty (to_writer_binary v) ≡ false
