-- ===== src/Protocol/CtrlCanonical.antt =====
-- internal/protocol/protocol.go: what Recv takes from a stream of bytes is what Send writes for the frame.
use mathlib.Core.Path.{subst}
use botjim.Prelude.{
  ltb-of_le, ℕ, ◌≤◌, ◌≡◌, ◌∙◌, refl, sym, ap, arith, false, some, [], ◌∷◌, ◌++◌, Bytes, IsByte,
  IsBytes, All-take, length, take, drop, get_or, ltb, take-append-drop, append_assoc,
}
use botjim.Wire.Words.{le_bytes, of_le, le_bytes-of_le}
use botjim.Wire.Encoder.{◌then◌}
use botjim.Wire.Stream.{got, ◌>>=◌, pure, too_large, read_full, unless-got, bind-got, read_full-got}
use botjim.Protocol.Ctrl.{max_ctrl_payload, CtrlFrame, ctrl_header, send, recv}

-- The six bytes of a header.
header_bytes :
    (hdr : Bytes)
    → length hdr ≡ 6
    → IsBytes hdr
    → hdr ≡ get_or hdr 0 0 ∷ get_or hdr 1 0 ∷ le_bytes 4 (of_le (drop 2 hdr))
header_bytes [] six all = absurd (omega arith)
header_bytes (a ∷ []) six all = absurd (omega arith)
header_bytes (a ∷ b ∷ tail) six (ha, (hb, all)) =
    let four : length tail ≡ 4 = omega arith in
    let same : le_bytes 4 (of_le tail) ≡ tail = rw four at (le_bytes-of_le tail all) in
    ap (λ t. a ∷ b ∷ t) (sym same)

record Body (n type flags : ℕ) (t : Bytes) (f : CtrlFrame) (rest : Bytes) : Type 0 where
  type_is : f.type ≡ type
  flags_is : f.flags ≡ flags
  payload_is : f.payload ≡ take n t
  rest_is : rest ≡ drop n t
  sized : length f.payload ≡ n

read-Body :
    (n type flags : ℕ) (t : Bytes) {f : CtrlFrame} {rest : Bytes}
    → (read_full n >>= λ payload. pure (record { type = type; flags = flags; payload = payload })) t
      ≡ got f rest
    → Body n type flags t f rest
read-Body n type flags t {f} {rest} h =
    let (payload, u, full, last) = bind-got (read_full n) _ t h in
    let (p, r, len) = read_full-got n t full in
    let same : f ≡ record { type = type; flags = flags; payload = payload } =
      unfold pure in cc last in
    let behind : u ≡ rest = unfold pure in cc last in
    record {
      type_is = ap (λ g. g.type) same;
      flags_is = ap (λ g. g.flags) same;
      payload_is = ap (λ g. g.payload) same ∙ p;
      rest_is = sym behind ∙ r;
      sized = ap (λ g. length g.payload) same ∙ len;
    }

-- A frame that Recv returns from a stream of bytes has a payload within the limit, Send accepts it, and the stream is
-- what Send writes for it and behind that what Recv leaves.
pub recv_canonical :
    (s : Bytes) {f : CtrlFrame} {rest : Bytes}
    → IsBytes s
    → recv s ≡ got f rest
    → (length f.payload ≤ max_ctrl_payload) × ((p : Bytes) × (send f ≡ some p) × (s ≡ p ++ rest))
unfolding recv send ctrl_header ◌then◌
recv_canonical s {f} {rest} all h =
    let (hdr, t, head, more) = bind-got (read_full 6) _ s h in
    let n = of_le (drop 2 hdr) in
    let guarded = unless-got (ltb max_ctrl_payload n) (too_large n) _ t more in
    let (hdr_is, t_is, six) = read_full-got 6 s head in
    let b = read-Body n (get_or hdr 0 0) (get_or hdr 1 0) t guarded.1 in
    let fits : length f.payload ≤ max_ctrl_payload =
      within n (length f.payload) guarded.0 b.sized in
    let bytes : IsBytes hdr = subst IsBytes (sym hdr_is) (All-take IsByte 6 s all) in
    let written : hdr ≡ f.type ∷ f.flags ∷ le_bytes 4 (length f.payload) =
      header_bytes hdr six bytes
      ∙ ap (λ x. x ∷ get_or hdr 1 0 ∷ le_bytes 4 n) (sym b.type_is)
      ∙ ap (λ x. f.type ∷ x ∷ le_bytes 4 n) (sym b.flags_is)
      ∙ ap (λ x. f.type ∷ f.flags ∷ le_bytes 4 x) (sym b.sized) in
    let body : t ≡ f.payload ++ rest =
      sym (take-append-drop n t)
      ∙ ap (λ x. x ++ drop n t) (sym b.payload_is)
      ∙ ap (λ x. f.payload ++ x) (sym b.rest_is) in
    let whole : s ≡ hdr ++ t =
      sym (take-append-drop 6 s)
      ∙ ap (λ x. x ++ drop 6 s) (sym hdr_is)
      ∙ ap (λ x. hdr ++ x) (sym t_is) in
    (
      fits,
      (
        (f.type ∷ f.flags ∷ le_bytes 4 (length f.payload)) ++ f.payload,
        rw (ltb-of_le (length f.payload) max_ctrl_payload fits) refl,
        whole
            ∙ ap (λ x. x ++ t) written
            ∙ ap (λ x. (f.type ∷ f.flags ∷ le_bytes 4 (length f.payload)) ++ x) body
            ∙ sym (append_assoc (f.type ∷ f.flags ∷ le_bytes 4 (length f.payload)) f.payload rest),
      ),
    )
  where
    within : (n l : ℕ) → ltb max_ctrl_payload n ≡ false → l ≡ n → l ≤ max_ctrl_payload
    within n l a b = ground arith
