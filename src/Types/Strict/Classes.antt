-- ===== src/Types/Strict/Classes.antt =====
-- A column of a STRICT table holds values of its storage class, and nulls.
use sqlite_mem.Prelude.{
  Text, text_eq, Option, none, some, ◌≡◌, refl, ap, sym, ◌⊎◌, inl, inr, Bool-cases, Option-cases,
}
use sqlite_mem.Errors.{Result, ok, err, ok-injective}
use sqlite_mem.Types.Value.{
  Real, SqlValue, null, integer, bigint, float, real, text, json_text, blob, StorageClass,
  null_class, integer_class, real_class, text_class, blob_class, storage_class_of,
}
use sqlite_mem.Types.Conversion.{Numbers, trim, coerce_text}
use sqlite_mem.Types.Strict.{
  StrictType, int_type, integer_type, real_type, text_type, blob_type, any_type, strict_type,
  strict_value_of, strict_text, strict_integer, strict_real, strict_blob, whole_real, whole_text,
  as_real, apply_strict_value,
}

-- The storage classes that a column of the type may hold.
abbrev pub HoldsClass : StrictType → StorageClass → Type 0
HoldsClass any_type c = Unit
HoldsClass int_type c = (c ≡ integer_class) ⊎ (c ≡ null_class)
HoldsClass integer_type c = (c ≡ integer_class) ⊎ (c ≡ null_class)
HoldsClass real_type c = (c ≡ real_class) ⊎ (c ≡ null_class)
HoldsClass text_type c = (c ≡ text_class) ⊎ (c ≡ null_class)
HoldsClass blob_type c = (c ≡ blob_class) ⊎ (c ≡ null_class)

-- What is accepted is of the class, or null.
abbrev pub OfClass : {R : Type 0} → StorageClass → Result (SqlValue R) → Type 0
OfClass c (ok w) = (storage_class_of w ≡ c) ⊎ (storage_class_of w ≡ null_class)
OfClass c (err e) = Unit

-- What a column of the type answers to a value.
abbrev pub Holds : {R : Type 0} → StrictType → SqlValue R → Result (SqlValue R) → Type 0
Holds any_type v r = r ≡ ok v
Holds int_type v r = OfClass integer_class r
Holds integer_type v r = OfClass integer_class r
Holds real_type v r = OfClass real_class r
Holds text_type v r = OfClass text_class r
Holds blob_type v r = OfClass blob_class r

module _ {R : Type 0} (h : Numbers R) (table column : Text) where
  IsWhole : SqlValue R → Type 0
  IsWhole w = (storage_class_of w ≡ integer_class) ⊎ (storage_class_of w ≡ null_class)

  class_of : (v w : SqlValue R) → ok v ≡ ok w → storage_class_of w ≡ storage_class_of v
  class_of v w e = ap storage_class_of (sym (ok-injective v w e))

  whole_real-class :
      (declared : StrictType) (r : Real R) (w : SqlValue R)
      → whole_real h table column declared r ≡ ok w
      → storage_class_of w ≡ integer_class
  unfolding storage_class_of
  whole_real-class declared r w e = elim (Option-cases (h.integral r)) [
    | inl broken ↦ cc (rw (broken, whole_real) at e)
    | inr (z, whole) ↦ class_of (integer z) w (rw (whole, whole_real) at e)
  ]

  whole_text-class :
      (declared : StrictType) (s : Text) (n : Option (Real R)) (w : SqlValue R)
      → whole_text h table column declared s n ≡ ok w
      → storage_class_of w ≡ integer_class
  unfolding storage_class_of
  whole_text-class declared s none w e = cc
  whole_text-class declared s (some n) w e = elim (Option-cases (h.integral n)) [
    | inl broken ↦ cc (rw (broken, whole_text) at e)
    | inr (z, whole) ↦ elim (Bool-cases (text_eq (trim s) (h.show n))) [
      | inl same ↦ class_of (integer z) w (rw (whole, whole_text, same) at e)
      | inr differs ↦ cc (rw (whole, whole_text, differs) at e)
    ]
  ]

  strict_integer-class :
      (declared : StrictType) (v w : SqlValue R)
      → strict_integer h table column declared v ≡ ok w
      → IsWhole w
  unfolding strict_integer storage_class_of IsWhole
  strict_integer-class declared null w e = inr (class_of null w e)
  strict_integer-class declared (integer z) w e = inl (class_of (integer z) w e)
  strict_integer-class declared (bigint z) w e = inl (class_of (bigint z) w e)
  strict_integer-class declared (float r) w e = inl (whole_real-class declared r w e)
  strict_integer-class declared (real r) w e = inl (whole_real-class declared r w e)
  strict_integer-class declared (text s) w e =
      inl (whole_text-class declared s (coerce_text h s) w e)
  strict_integer-class declared (json_text s) w e =
      inl (whole_text-class declared s (coerce_text h s) w e)
  strict_integer-class declared (blob b) w e = cc

  strict_text-class :
      (v w : SqlValue R)
      → strict_text h table column v ≡ ok w
      → (storage_class_of w ≡ text_class) ⊎ (storage_class_of w ≡ null_class)
  unfolding storage_class_of
  strict_text-class null w e = inr (class_of null w e)
  strict_text-class (integer z) w e = inl (class_of _ w e)
  strict_text-class (bigint z) w e = inl (class_of _ w e)
  strict_text-class (float r) w e = inl (class_of _ w e)
  strict_text-class (real r) w e = inl (class_of _ w e)
  strict_text-class (text s) w e = inl (class_of _ w e)
  strict_text-class (json_text s) w e = inl (class_of _ w e)
  strict_text-class (blob b) w e = cc

  as_real-class :
      (n : Option (Real R)) (w : SqlValue R)
      → as_real h table column n ≡ ok w
      → storage_class_of w ≡ real_class
  unfolding storage_class_of
  as_real-class none w e = cc
  as_real-class (some n) w e = class_of _ w e

  strict_real-class :
      (v w : SqlValue R)
      → strict_real h table column v ≡ ok w
      → (storage_class_of w ≡ real_class) ⊎ (storage_class_of w ≡ null_class)
  unfolding strict_real storage_class_of
  strict_real-class null w e = inr (class_of null w e)
  strict_real-class (integer z) w e = inl (class_of _ w e)
  strict_real-class (bigint z) w e = inl (class_of _ w e)
  strict_real-class (float r) w e = inl (class_of _ w e)
  strict_real-class (real r) w e = inl (class_of _ w e)
  strict_real-class (text s) w e = inl (as_real-class (coerce_text h s) w e)
  strict_real-class (json_text s) w e = inl (as_real-class (coerce_text h s) w e)
  strict_real-class (blob b) w e = cc

  strict_blob-class :
      (v w : SqlValue R)
      → strict_blob h table column v ≡ ok w
      → (storage_class_of w ≡ blob_class) ⊎ (storage_class_of w ≡ null_class)
  unfolding storage_class_of
  strict_blob-class null w e = inr (class_of null w e)
  strict_blob-class (blob b) w e = inl (class_of _ w e)
  strict_blob-class v w e = cc

  strict_value_of-HoldsClass :
      (declared : StrictType) (v w : SqlValue R)
      → strict_value_of h table column declared v ≡ ok w
      → HoldsClass declared (storage_class_of w)
  unfolding strict_value_of IsWhole
  strict_value_of-HoldsClass any_type v w e = tt
  strict_value_of-HoldsClass int_type v w e = strict_integer-class int_type v w e
  strict_value_of-HoldsClass integer_type v w e = strict_integer-class integer_type v w e
  strict_value_of-HoldsClass real_type v w e = strict_real-class v w e
  strict_value_of-HoldsClass text_type v w e = strict_text-class v w e
  strict_value_of-HoldsClass blob_type v w e = strict_blob-class v w e

  answers :
      (d : StrictType) (v : SqlValue R) (r : Result (SqlValue R))
      → ((w : SqlValue R) → r ≡ ok w → HoldsClass d (storage_class_of w))
      → (d ≡ any_type → r ≡ ok v)
      → Holds d v r
  answers any_type v r f g = g refl
  answers int_type v (ok w) f g = f w refl
  answers int_type v (err e) f g = tt
  answers integer_type v (ok w) f g = f w refl
  answers integer_type v (err e) f g = tt
  answers real_type v (ok w) f g = f w refl
  answers real_type v (err e) f g = tt
  answers text_type v (ok w) f g = f w refl
  answers text_type v (err e) f g = tt
  answers blob_type v (ok w) f g = f w refl
  answers blob_type v (err e) f g = tt

  -- A value that a column of a STRICT table accepts is stored with the storage class of the column's
  -- type, or is null; a column of type ANY takes every value, and leaves it as it is.
  pub apply_strict_value-Holds :
      (to_upper : Text → Text) (value : SqlValue R) (name : Text) (declared : StrictType)
      → strict_type (to_upper (trim name)) ≡ some declared
      → Holds declared value (apply_strict_value h table column to_upper value name)
  unfolding apply_strict_value strict_value_of
  apply_strict_value-Holds to_upper value name declared e =
      answers declared value (apply_strict_value h table column to_upper value name)
        (λ w f. strict_value_of-HoldsClass declared value w (rw (e, apply_strict_value) at f))
        (λ any. rw (e, apply_strict_value) (ap (λ d. strict_value_of h table column d value) any))
