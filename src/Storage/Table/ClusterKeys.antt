-- ===== src/Storage/Table/ClusterKeys.antt =====
-- storage/table.ts: the keys of the rows of WITHOUT ROWID tables.
use sqlite_mem.Prelude.{
  ℕ, Text, codes, to_lower, Option, none, some, List, [], ◌∷◌, ◌++◌, get_elem?,
}
use sqlite_mem.Errors.{Result, ok, ◌>>=◌}
use sqlite_mem.Types.Value.{SqlValue, null, integer, bigint, float, real, text, json_text, blob}
use sqlite_mem.Types.Conversion.{Numbers}
use sqlite_mem.Types.{normalize_for_collation}
use sqlite_mem.Indexes.Keys.{integer_text, nat_text}
use sqlite_mem.Storage.Table.{
  ColumnInfo, TableConstraint, unique_constraint, primary_constraint, other_constraint, Table,
}
use sqlite_mem.Storage.Table.Columns.{or_null, column, column_offset, primary_columns, offset_from}
use sqlite_mem.Storage.Table.Validation.{collation_of}

-- `primaryKeyColumns`
abbrev pub tail_of : List TableConstraint → Option (List Text)
tail_of [] = none
tail_of (primary_constraint names ∷ cs) = some names
tail_of (unique_constraint names ∷ cs) = tail_of cs
tail_of (other_constraint ∷ cs) = tail_of cs

unfoldable pub columns_named :
    {X : Type 0} → List (ColumnInfo X) → List Text → Result (List (ColumnInfo X))
unfolding column
columns_named columns [] = ok []
columns_named columns (name ∷ names) =
    column name columns >>= λ c. columns_named columns names >>= λ cs. ok (c ∷ cs)

unfoldable pub primary_key_columns :
    {X : Type 0} → List (ColumnInfo X) → List TableConstraint → Result (List (ColumnInfo X))
unfolding columns_named
primary_key_columns columns constraints = elim (tail_of constraints) [
  | some names ↦ columns_named columns names
  | none ↦ ok (primary_columns columns)
]

-- `serializePkComponent`; `show` is String of a number.
abbrev pub comma_bytes : List ℕ → Text
comma_bytes [] = []
comma_bytes (b ∷ []) = nat_text b
comma_bytes (b ∷ c ∷ cs) = nat_text b ++ (codes "," ++ comma_bytes (c ∷ cs))

unfoldable pub serialize_pk_component : {R : Type 0} → Numbers R → SqlValue R → Text
serialize_pk_component h null = 0 ∷ codes "n"
serialize_pk_component h (bigint z) = 0 ∷ (codes "b:" ++ integer_text z)
serialize_pk_component h (integer z) = 0 ∷ (codes "i:" ++ h.show (h.doubles.of_integer z))
serialize_pk_component h (float r) = 0 ∷ (codes "i:" ++ h.show r)
serialize_pk_component h (text s) = 0 ∷ (codes "s:" ++ s)
serialize_pk_component h (blob b) = 0 ∷ (codes "x:" ++ comma_bytes b)
serialize_pk_component h (real r) = 0 ∷ (codes "r:" ++ h.show r)
serialize_pk_component h (json_text s) = 0 ∷ (codes "r:" ++ s)

-- .join("\\0")
abbrev pub join_nul : List Text → Text
join_nul [] = []
join_nul (s ∷ []) = s
join_nul (s ∷ t ∷ ts) = s ++ (0 ∷ join_nul (t ∷ ts))

abbrev pub or_zero : Option ℕ → ℕ
or_zero none = 0
or_zero (some i) = i

module _ {R X : Type 0} (h : Numbers R) (to_upper : Text → Text) where
  unfoldable pub key_parts :
      List (ColumnInfo X) → List (SqlValue R) → List (ColumnInfo X) → Result (List Text)
  unfolding serialize_pk_component normalize_for_collation offset_from
  key_parts columns values [] = ok []
  key_parts columns values (c ∷ cs) =
      normalize_for_collation to_upper
        (or_null (get_elem? values (or_zero (column_offset (to_lower c.name) columns))))
        (collation_of c)
      >>= λ v. key_parts columns values cs >>= λ rest. ok (serialize_pk_component h v ∷ rest)

  -- `makeClusterKey`
  unfoldable pub make_cluster_key : List (SqlValue R) → Table R X → Result Text
  unfolding primary_key_columns key_parts
  make_cluster_key values t = primary_key_columns t.columns t.constraints >>= λ keys.
      key_parts t.columns values keys >>= λ parts. ok (join_nul parts)
