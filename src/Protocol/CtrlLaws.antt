-- ===== src/Protocol/CtrlLaws.antt =====
-- A run of control frames goes through the stream unchanged, and oversized ones go nowhere.
use mathlib.Core.Path.{subst}
use botjim.Prelude.{
  ltb-of_le, sym, ◌≤◌, ◌≡◌, ◌∙◌, refl, arith, Option, none, some, List, [], ◌∷◌, ◌++◌, Bytes,
  length, drop, get_or, if◌then◌else◌, append_assoc,
}
use botjim.Wire.Words.{le_bytes, of_le, of_le-le_bytes, capacity}
use botjim.Wire.Encoder.{◌then◌}
use botjim.Wire.Stream.{
  got, pure, bind-eq, Takes, Takes-bind, Takes-last, Takes-unless, Takes-read_full,
}
use botjim.Protocol.Ctrl.{
  max_ctrl_payload, CtrlFrame, ctrl_header, send, recv, followed, send_all, recv_all,
}

-- The length field of the header.
length_field :
    (f : CtrlFrame)
    → length f.payload ≤ max_ctrl_payload
    → of_le (drop 2 (ctrl_header f)) ≡ length f.payload
unfolding ctrl_header capacity
length_field f h = of_le-le_bytes 4 (length f.payload) (omega (arith, h))

header_length : (f : CtrlFrame) → length (ctrl_header f) ≡ 6
unfolding ctrl_header le_bytes
header_length f = refl

header_type : (f : CtrlFrame) → get_or (ctrl_header f) 0 0 ≡ f.type
unfolding ctrl_header
header_type f = refl

header_flags : (f : CtrlFrame) → get_or (ctrl_header f) 1 0 ≡ f.flags
unfolding ctrl_header
header_flags f = refl

pub Takes-recv :
    (f : CtrlFrame)
    → length f.payload ≤ max_ctrl_payload
    → Takes recv (ctrl_header f then f.payload) f
unfolding recv
Takes-recv f h = Takes-bind _ (Takes-read_full 6 (ctrl_header f) (header_length f)) (
    Takes-unless _ (ltb-of_le _ _ (rw (length_field f h) h)) (
      Takes-last _ (Takes-read_full _ f.payload (rw (length_field f h)))
        (rw (header_type f, header_flags f))))

send-some :
    (f : CtrlFrame) {p : Bytes}
    → send f ≡ some p
    → (length f.payload ≤ max_ctrl_payload) × (p ≡ (ctrl_header f then f.payload))
unfolding send
send-some f h = ground arith

-- What Send accepts is what Recv can take.
pub send-Takes : (f : CtrlFrame) {p : Bytes} → send f ≡ some p → Takes recv p f
send-Takes f h =
    let (fits, bytes_are) = send-some f h in
    subst (λ q. Takes recv q f) (sym bytes_are) (Takes-recv f fits)

followed-some :
    (a b : Option Bytes) {p : Bytes}
    → followed a b ≡ some p
    → (q : Bytes) × (r : Bytes) × (a ≡ some q) × (b ≡ some r) × (p ≡ q ++ r)
unfolding followed
followed-some none b h = cc
followed-some (some q) none h = cc
followed-some (some q) (some r) h = (q, r, refl, refl, cc)

-- Whatever frames Send accepts one after the other, as many calls of Recv return the same frames
-- in the same order, and leave what follows on the stream.
pub ctrl_roundtrip :
    (fs : List CtrlFrame) (rest : Bytes) {p : Bytes}
    → send_all fs ≡ some p
    → recv_all (length fs) (p ++ rest) ≡ got fs rest
unfolding recv_all send_all
ctrl_roundtrip [] rest h = unfold pure in cc
ctrl_roundtrip (f ∷ fs) rest h =
    let (q, r, first, others, whole) = followed-some (send f) (send_all fs) h in
    rw (whole, append_assoc)
      (bind-eq recv _ _ ((send-Takes f first).takes (r ++ rest))
        ∙ bind-eq (recv_all (length fs)) _ _ (ctrl_roundtrip fs rest others)
        ∙ unfold pure in refl)
