-- ===== src/Protocol/Ctrl.antt =====
-- internal/protocol/protocol.go: CtrlStream. A frame is a type, flags, a length and a payload.
use botjim.Prelude.{
  ℕ, zero, suc, ◌*◌, ◌^◌, Option, none, some, List, [], ◌∷◌, ◌++◌, Bytes, length, drop, get_or, ltb,
  if◌then◌else◌,
}
use botjim.Wire.Words.{le_bytes, of_le}
use botjim.Wire.Encoder.{◌then◌}
use botjim.Wire.Stream.{Reader, ◌>>=◌, pure, unless, too_large, read_full}

abbrev pub max_ctrl_payload : ℕ
max_ctrl_payload = 8 * 2 ^ 20

pub record CtrlFrame : Type 0 where
  pub type : ℕ
  pub flags : ℕ
  pub payload : Bytes

unfoldable pub ctrl_header : CtrlFrame → Bytes
ctrl_header f = f.type ∷ f.flags ∷ le_bytes 4 (length f.payload)

-- What Send writes, or `none` where it refuses the payload.
unfoldable pub send : CtrlFrame → Option Bytes
unfolding ctrl_header
send f =
    if ltb max_ctrl_payload (length f.payload) then none else some (ctrl_header f then f.payload)

unfoldable pub recv : Reader CtrlFrame
recv = read_full 6 >>= λ hdr.
    unless (ltb max_ctrl_payload (of_le (drop 2 hdr))) (too_large (of_le (drop 2 hdr))) (
      read_full (of_le (drop 2 hdr)) >>= λ payload.
      pure (record { type = get_or hdr 0 0; flags = get_or hdr 1 0; payload = payload }))

-- One Send after another: nothing more is written once a call has failed.
unfoldable pub followed : Option Bytes → Option Bytes → Option Bytes
followed none later = none
followed (some p) none = none
followed (some p) (some later) = some (p ++ later)

-- A run of Send calls: the stream that they leave, or `none` if one is refused.
unfoldable pub send_all : List CtrlFrame → Option Bytes
unfolding send followed
send_all [] = some []
send_all (f ∷ fs) = followed (send f) (send_all fs)

-- `n` calls of Recv.
unfoldable pub recv_all : ℕ → Reader (List CtrlFrame)
unfolding recv
recv_all zero = pure []
recv_all (suc n) = recv >>= λ f. (recv_all n >>= λ fs. pure (f ∷ fs))
