-- ===== src/Wire/Malformed.antt =====
-- Frames that the server refuses.
use neemata.Common.{
  ℕ, ◌+◌, ◌*◌, ◌<◌, ◌≡◌, refl, ◌≢◌, ◌⊎◌, inl, inr, false, [], ◌∷◌, arith, ok, err, length, ◌==◌,
  Bool-cases, ==_iff,
}
use neemata.Wire.Bytes.{Bytes, malformed_rpc, malformed_pull, unsupported}
use neemata.Wire.Messages.{ClientMessageType, client_code, ClientMessage, Codec}
use neemata.Wire.Server.{decode_client_message}

module _ (codec : Codec) where
  eight_bytes :
      (payload : Bytes)
      → length payload ≡ 8
      → (id size : ℕ) × (decode_client_message codec (12 ∷ payload)
          ≡ ok (ClientMessage.rpc_stream_pull id size, []))
  unfolding decode_client_message
  eight_bytes (a ∷ b ∷ c ∷ d ∷ e ∷ f ∷ g ∷ h ∷ []) p =
      (a + b * 256 + c * 65536 + d * 16777216, e + f * 256 + g * 65536 + h * 16777216, refl)
  eight_bytes payload p = absurd (omega arith)

  other_length :
      (payload : Bytes)
      → (length payload == 8) ≡ false
      → decode_client_message codec (12 ∷ payload) ≡ err (malformed_pull (length payload))
  unfolding decode_client_message
  other_length payload ne = rw ne

  -- A pull of a call's stream is read exactly if it has eight bytes behind its type, and refused as
  -- malformed, with the length that it has, at any other length.
  pub stream_pull-length :
      (payload : Bytes)
      → ((length payload ≡ 8)
          × ((id size : ℕ) × (decode_client_message codec (12 ∷ payload)
                ≡ ok (ClientMessage.rpc_stream_pull id size, []))))
        ⊎ ((length payload ≢ 8)
            × (decode_client_message codec (12 ∷ payload) ≡ err (malformed_pull (length payload))))
  stream_pull-length payload = elim (Bool-cases (length payload == 8)) [
    | inl e ↦ inl ((==_iff _ 8).0 e, eight_bytes payload ((==_iff _ 8).0 e))
    | inr ne ↦
        let other : length payload ≢ 8 = λ e. cc (ne, (==_iff (length payload) 8).1 e) in
        inr (other, other_length payload ne)
  ]

  -- A call whose frame ends before the procedure's declared end is refused, whatever else it holds.
  pub truncated_rpc :
      (a b c d e f : ℕ) (rest : Bytes)
      → length rest < e + f * 256
      → decode_client_message codec (10 ∷ a ∷ b ∷ c ∷ d ∷ e ∷ f ∷ rest)
        ≡ err (malformed_rpc (e + f * 256))
  unfolding decode_client_message
  truncated_rpc a b c d e f rest h = ground arith

  -- A frame of a type that no client sends is refused; the type is named.
  pub unknown_type :
      (code : ℕ) (payload : Bytes)
      → ((t : ClientMessageType) → code ≢ client_code t)
      → decode_client_message codec (code ∷ payload) ≡ err (unsupported code)
  unfolding decode_client_message
  unknown_type code payload h = ground (
    arith,
    h ClientMessageType.rpc,
    h ClientMessageType.rpc_abort,
    h ClientMessageType.rpc_stream_pull,
    h ClientMessageType.ping,
    h ClientMessageType.pong,
    h ClientMessageType.client_blob_push,
    h ClientMessageType.client_blob_end,
    h ClientMessageType.client_blob_abort,
    h ClientMessageType.server_blob_abort,
    h ClientMessageType.server_blob_pull,
  )
