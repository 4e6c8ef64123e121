-- ===== src/Serialization/Wire/Varints.antt =====
-- Reading back the variable-length integers that were written.
use native.Mathlib.Nat.{add-suc, pow-suc, add-mul, mul_assoc, mul_comm}
use mathlib.Core.Path.{subst}
use sqlite_mem.Prelude.{
  Text, append_assoc, length-append, ℕ, zero, suc, ◌+◌, ◌*◌, ◌/◌, ◌%◌, ◌^◌, ◌≤◌, ◌<◌, true, false,
  List, ◌∷◌, ◌++◌, ◌≡◌, refl, ap, ◌∙◌, sym, length, ltb, arith, Bool-cases, inl, inr,
}
use sqlite_mem.Serialization.Wire.{
  write_text, read_text, varint_groups, write_varint_u32, got, varint_loop, read_varint_u32,
}
use sqlite_mem.Serialization.Wire.Bytes.{reader_at, read_raw-append}

-- A number is its lowest seven bits and the rest.
group : (v w : ℕ) → v % 128 * w + v / 128 * (w * 128) ≡ v * w
group v w =
    let parts : v % 128 + v / 128 * 128 ≡ v = omega arith in
    omega (
      arith,
      add-mul (v % 128) (v / 128 * 128) w,
      ap (λ u. u * w) parts,
      mul_assoc (v / 128) 128 w,
      ap (λ u. v / 128 * u) (mul_comm 128 w),
    )

pow_plus : (s n : ℕ) → 2 ^ (s + n) ≡ 2 ^ s * 2 ^ n
pow_plus s zero = let z : s + 0 ≡ s = omega arith in rw z (omega arith)
pow_plus s (suc n) =
    ap (λ u. 2 ^ u) (add-suc s n)
    ∙ pow-suc 2 (s + n)
    ∙ ap (λ u. u * 2) (pow_plus s n)
    ∙ mul_assoc (2 ^ s) (2 ^ n) 2
    ∙ ap (λ u. 2 ^ s * u) (sym (pow-suc 2 n))

pow_seven : (shift : ℕ) → 2 ^ (shift + 7) ≡ 2 ^ shift * 128
pow_seven shift = pow_plus shift 7

-- The last group.
varint_loop_last :
    (shift result v o : ℕ) (ys : List ℕ)
    → v < 128
    → result + v * 2 ^ shift < 2 ^ 32
    → varint_loop shift result o (v ∷ ys) ≡ got (result + v * 2 ^ shift) (reader_at (suc o) ys)
unfolding varint_loop
varint_loop_last shift result v o ys small l =
    let low : v % 128 ≡ v = omega (arith, small) in
    let fits : (result + v * 2 ^ shift) % 2 ^ 32 ≡ result + v * 2 ^ shift = omega (arith, l) in
    let ends : ltb v 128 ≡ true = ground (arith, small) in rw (low, varint_loop, fits, ends) refl

-- A group with the high bit set.
varint_loop_more :
    (shift result b o : ℕ) (ys : List ℕ)
    → b < 128
    → shift + 7 ≤ 28
    → result + b * 2 ^ shift < 2 ^ 32
    → varint_loop shift result o ((b + 128) ∷ ys)
      ≡ varint_loop (shift + 7) (result + b * 2 ^ shift) (suc o) ys
unfolding varint_loop
varint_loop_more shift result b o ys small s l =
    let low : (b + 128) % 128 ≡ b = omega (arith, small) in
    let fits : (result + b * 2 ^ shift) % 2 ^ 32 ≡ result + b * 2 ^ shift = omega (arith, l) in
    let goes_on : ltb (b + 128) 128 ≡ false = ground arith in
    let within : ltb 28 (shift + 7) ≡ false = ground (arith, s) in
    rw (low, varint_loop, fits, goes_on, within) refl

varint_loop-varint_groups :
    (n shift result v o : ℕ) (ys : List ℕ)
    → shift + 7 * n ≡ 28
    → result + v * 2 ^ shift < 2 ^ 32
    → varint_loop shift result o (varint_groups n v ++ ys)
      ≡ got (result + v * 2 ^ shift) (reader_at (o + length (varint_groups n v)) ys)
unfolding varint_groups
varint_loop-varint_groups zero shift result v o ys e l =
    let s : shift ≡ 28 = omega (arith, e) in
    let small : v < 16 = omega (arith, subst (λ u. result + v * 2 ^ u < 2 ^ 32) s l) in
    let same : v % 256 ≡ v = omega (arith, small) in
    rw same (
      varint_loop_last shift result v o ys (omega (arith, small)) l
      ∙ ap (λ u. got (result + v * 2 ^ shift) (reader_at u ys)) (omega arith))
varint_loop-varint_groups (suc n) shift result v o ys e l = elim (Bool-cases (ltb v 128)) [
  | inl last ↦ rw last (
      varint_loop_last shift result v o ys (ground (arith, last)) l
      ∙ ap (λ u. got (result + v * 2 ^ shift) (reader_at u ys)) (omega arith))
  | inr more ↦
      let w = 2 ^ shift in
      let next : result + v % 128 * w + v / 128 * 2 ^ (shift + 7) ≡ result + v * w =
        rw (pow_seven shift) (omega (arith, group v w)) in
      let below : result + v % 128 * w < 2 ^ 32 = omega (arith, next, l) in
      rw more (
        varint_loop_more shift result (v % 128) o (varint_groups n (v / 128) ++ ys) (omega arith)
          (omega (arith, e)) below
        ∙ varint_loop-varint_groups n (shift + 7) (result + v % 128 * w) (v / 128) (suc o) ys
            (omega (arith, e)) (rw next l)
        ∙ rw next (ap (λ u. got (result + v * w) (reader_at u ys)) (omega arith)))
]

-- A number below 2^32 is read back from the bytes that were written for it, and what follows them is
-- left.
pub read_varint_u32-write_varint_u32 :
    (v o : ℕ) (ys : List ℕ)
    → v < 2 ^ 32
    → read_varint_u32 (reader_at o (write_varint_u32 v ++ ys))
      ≡ got v (reader_at (o + length (write_varint_u32 v)) ys)
unfolding read_varint_u32 write_varint_u32
read_varint_u32-write_varint_u32 v o ys l =
    let low : v % 2 ^ 32 ≡ v = omega (arith, l) in
    let whole : 0 + v * 2 ^ 0 ≡ v = omega arith in
    rw (low, read_varint_u32, write_varint_u32)
      (subst
        (λ u.
          varint_loop 0 0 o (varint_groups 4 v ++ ys)
          ≡ got u (reader_at (o + length (varint_groups 4 v)) ys))
        whole (varint_loop-varint_groups 4 0 0 v o ys (omega arith) (omega (arith, l))))

-- A text is read back from what was written for it, if decoding undoes its encoding and that has fewer
-- than 2^32 bytes.
pub read_text-write_text :
    (encode : Text → List ℕ) (decode : List ℕ → Text) (s : Text) (o : ℕ) (ys : List ℕ)
    → decode (encode s) ≡ s
    → length (encode s) < 2 ^ 32
    → let b = write_text encode s in
      read_text decode (reader_at o (b ++ ys)) ≡ got s (reader_at (o + length b) ys)
unfolding read_text write_text
read_text-write_text encode decode s o ys e l =
    let b = encode s in
    let n = write_varint_u32 (length b) in
    rw
      (
        append_assoc n b ys,
        read_varint_u32-write_varint_u32 (length b) o (b ++ ys) l,
        read_text,
        read_raw-append b ys (o + length n),
        e,
      )
      (ap (λ u. got s (reader_at u ys)) (omega (arith, length-append n b)))
