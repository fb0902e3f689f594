-- ===== src/WebInspector.antt =====
-- src/webinspector.rs: the codec of the WebInspector protocol. A packet is a 4-byte big-endian
-- length and a body; where partial messages are supported, a body wraps a piece of the message.
-- Lengths are `usize`, of 64 bits, and do not wrap; a shift by k bits and the mask 0xFF are
-- written `/ 2 ^ k` and `% 256`, and the `|` of disjoint bytes is `+`.
pub mod Header
pub mod Pieces
pub mod Reader
pub mod Writer
pub mod Spawn
pub mod Tests
use Prim.Native.String.{◌++◌ as concat}
use ios_webkit_debug_proxy_r.Base.{
  ℕ, zero, suc, ◌+◌, ◌-◌, ◌*◌, ◌/◌, ◌%◌, ◌^◌, String, Bool, true, false, not, ◌&&◌, ◌||◌, Option,
  none, some, List, [], ◌∷◌, ◌++◌, ltb, if◌then◌else◌, Bytes, length, take, drop, is_empty,
}
use ios_webkit_debug_proxy_r.Base.Decimal.{to_string}
use ios_webkit_debug_proxy_r.Error.{
  Error, plist, web_inspector, channel_closed, Result, ok, err, ◌>>=◌, ok_or, map_err,
}
use ios_webkit_debug_proxy_r.Plist.{Plist}

abbrev pub max_rpc_len : ℕ
max_rpc_len = 8096 - 500

abbrev pub max_body_length : ℕ
max_body_length = 2 ^ 26

pub record WebInspectorCodec : Type 0 where
  pub is_sim : Bool
  pub partials_supported : Bool
  pub partial_buffer : Bytes

-- WebInspectorCodec::new
abbrev pub new_codec : Bool → Bool → WebInspectorCodec
new_codec is_sim partials_supported = record {
  is_sim = is_sim;
  partials_supported = partials_supported;
  partial_buffer = [];
}

unfoldable pub build_packet : Bytes → Bytes
build_packet body =
    let data_len : ℕ = length body in
    data_len / 2 ^ 24 % 256
    ∷ data_len / 2 ^ 16 % 256
    ∷ data_len / 2 ^ 8 % 256
    ∷ data_len % 256
    ∷ body

unfoldable pub parse_length : Bytes → Result ℕ
parse_length (b0 ∷ b1 ∷ b2 ∷ b3 ∷ rest) =
    let len : ℕ = b0 * 2 ^ 24 + b1 * 2 ^ 16 + b2 * 2 ^ 8 + b3 in
    if ltb 0 max_body_length && ltb max_body_length len
    then err (
        web_inspector
          (concat "Invalid packet header: length " (concat (to_string len) " exceeds maximum")))
    else ok len
parse_length _ = err (web_inspector "Insufficient data to parse length")

module _ (p : Plist) where
  open p use {
    Value, Dictionary, of_data, dictionary, as_data, as_dictionary, new, insert, get, from_bytes,
    to_writer_binary,
  }

  pub data WiEvent : Type 0 where
    recv_plist : Value → WiEvent

  -- One piece of a message, wrapped in a dictionary under the key that says if more will follow.
  unfoldable pub wrap_chunk : Bool → Bytes → Bytes
  wrap_chunk is_partial chunk = to_writer_binary (
      dictionary (
        insert new (if is_partial then "WIRPartialMessageKey" else "WIRFinalMessageKey")
          (of_data chunk)))

  -- The loop of `encode_plist`. The first argument is fuel, more than the bytes that are left.
  unfoldable pub encode_chunks : ℕ → Bytes → ℕ → List Bytes
  encode_chunks zero rpc_bin offset = []
  encode_chunks (suc fuel) rpc_bin offset =
      let is_partial : Bool = ltb max_rpc_len (length rpc_bin - offset) in
      let chunk_end : ℕ = if is_partial then offset + max_rpc_len else length rpc_bin in
      let chunk : Bytes = take (chunk_end - offset) (drop offset rpc_bin) in
      let more : List Bytes = encode_chunks fuel rpc_bin chunk_end in
      build_packet (wrap_chunk is_partial chunk) ∷ (if not is_partial then [] else more)

  unfoldable pub encode_plist : WebInspectorCodec → Bytes → List Bytes
  encode_plist c rpc_bin =
      if not c.partials_supported
      then build_packet rpc_bin ∷ (if not c.is_sim then build_packet [] ∷ [] else [])
      else encode_chunks (suc (length rpc_bin)) rpc_bin 0

  -- The piece in a wrapper, and if more pieces follow.
  unfoldable pub unwrap_chunk : Value → Result (Bytes × Bool)
  unwrap_chunk value = do
    wi_dict ← ok_or (as_dictionary value) (web_inspector "Outer wrapper is not a dictionary")
    elim (get wi_dict "WIRFinalMessageKey") [
      | some rpc ↦ do
        chunk ← ok_or (as_data rpc) (web_inspector "WIRFinalMessageKey is not data type")
        ok (chunk, false)
      | none ↦ elim (get wi_dict "WIRPartialMessageKey") [
        | some rpc ↦ do
          chunk ← ok_or (as_data rpc) (web_inspector "WIRPartialMessageKey is not data type")
          ok (chunk, true)
        | none ↦ err (web_inspector "Missing WIRFinalMessageKey or WIRPartialMessageKey")
      ]
    ]

  -- `plist::from_bytes(..).map_err(..)`, with the prefix of the message.
  abbrev pub parse_bytes : String → Bytes → Result Value
  parse_bytes prefix bytes = map_err (from_bytes bytes) (λ e. plist (concat prefix e))

  -- From the piece on: the buffer is extended, or emptied into the message that is parsed.
  unfoldable pub accept_chunk :
      WebInspectorCodec → Bytes → Bool → WebInspectorCodec × Result (Option Value)
  accept_chunk c rpc_data true =
      (record c { partial_buffer = c.partial_buffer ++ rpc_data }, ok none)
  accept_chunk c rpc_data false =
      let buffer : Bytes =
        if not (is_empty c.partial_buffer) then c.partial_buffer ++ rpc_data else [] in
      let full_data : Bytes = if not (is_empty buffer) then buffer else rpc_data in
      (
        record c { partial_buffer = [] },
        do rpc_value ← parse_bytes "RPC plist parsing failed: " full_data; ok (some rpc_value),
      )

  unfoldable pub parse_plist : WebInspectorCodec → Bytes → WebInspectorCodec × Result (Option Value)
  parse_plist c body =
      if not c.partials_supported
      then (c, do value ← parse_bytes "plist parsing failed: " body; ok (some value))
      else elim (do wi_dict ← parse_bytes "plist parsing failed: " body; unwrap_chunk wi_dict) [
        | ok (rpc_data, is_partial) ↦ accept_chunk c rpc_data is_partial
        | err e ↦ (c, err e)
      ]

  abbrev pub to_event : Result (Option Value) → Result (Option WiEvent)
  to_event (ok (some rpc_dict)) = ok (some (recv_plist rpc_dict))
  to_event (ok none) = ok none
  to_event (err e) = err e

  unfoldable pub decode_body :
      WebInspectorCodec → Bytes → WebInspectorCodec × Result (Option WiEvent)
  decode_body c body = let (c', parsed) = parse_plist c body in (c', to_event parsed)
