-- ===== src/Lexer/Keywords.antt =====
-- lexer/tokenize.ts: the keyword kinds and the table of their spellings.
use sqlite_mem.Prelude.{
  String, Text, codes, text_eq, if◌then◌else◌, Option, none, some, List, [], ◌∷◌,
}

-- The keyword members of `TokenKind`. Many spell words that are reserved here, hence the prefix.
pub data Keyword : Type 0 where
  kw_abort kw_action kw_add kw_after kw_all kw_alter kw_analyze kw_and kw_as kw_asc kw_attach :
      Keyword
  kw_autoincrement kw_before kw_begin kw_between kw_by kw_cascade kw_case kw_cast kw_check : Keyword
  kw_collate kw_column kw_commit kw_conflict kw_constraint kw_create kw_cross kw_current : Keyword
  kw_current_date kw_current_time kw_current_timestamp kw_database kw_default kw_deferrable :
      Keyword
  kw_deferred kw_delete kw_desc kw_detach kw_distinct kw_do kw_drop kw_each kw_else kw_end : Keyword
  kw_escape kw_except kw_exclude kw_exclusive kw_exists kw_explain kw_fail kw_filter kw_first :
      Keyword
  kw_following kw_for kw_foreign kw_from kw_full kw_false kw_generated kw_glob kw_group : Keyword
  kw_groups kw_having kw_if kw_ignore kw_immediate kw_in kw_index kw_indexed kw_initially : Keyword
  kw_inner kw_insert kw_instead kw_intersect kw_into kw_is kw_isnull kw_join kw_key kw_last :
      Keyword
  kw_left kw_like kw_limit kw_match kw_materialized kw_natural kw_no kw_not kw_nothing : Keyword
  kw_notnull kw_null kw_nulls kw_of kw_offset kw_on kw_or kw_order kw_others kw_outer kw_over :
      Keyword
  kw_partition kw_plan kw_pragma kw_preceding kw_primary kw_query kw_raise kw_range : Keyword
  kw_recursive kw_references kw_regexp kw_reindex kw_release kw_rename kw_replace kw_restrict :
      Keyword
  kw_respect kw_returning kw_right kw_rollback kw_row kw_rows kw_savepoint kw_select kw_set :
      Keyword
  kw_table kw_temp kw_temporary kw_then kw_ties kw_to kw_transaction kw_trigger kw_true : Keyword
  kw_unbounded kw_union kw_unique kw_update kw_using kw_vacuum kw_values kw_view kw_virtual :
      Keyword
  kw_when kw_where kw_window kw_with kw_without : Keyword

-- `KEYWORDS`, in the source's order.
abbrev pub keywords : List (String × Keyword)
keywords =
    ("ABORT", kw_abort)
    ∷ ("ACTION", kw_action)
    ∷ ("ADD", kw_add)
    ∷ ("AFTER", kw_after)
    ∷ ("ALL", kw_all)
    ∷ ("ALTER", kw_alter)
    ∷ ("ANALYZE", kw_analyze)
    ∷ ("AND", kw_and)
    ∷ ("AS", kw_as)
    ∷ ("ASC", kw_asc)
    ∷ ("ATTACH", kw_attach)
    ∷ ("AUTOINCREMENT", kw_autoincrement)
    ∷ ("BEFORE", kw_before)
    ∷ ("BEGIN", kw_begin)
    ∷ ("BETWEEN", kw_between)
    ∷ ("BY", kw_by)
    ∷ ("CASCADE", kw_cascade)
    ∷ ("CASE", kw_case)
    ∷ ("CAST", kw_cast)
    ∷ ("CHECK", kw_check)
    ∷ ("COLLATE", kw_collate)
    ∷ ("COLUMN", kw_column)
    ∷ ("COMMIT", kw_commit)
    ∷ ("CONFLICT", kw_conflict)
    ∷ ("CONSTRAINT", kw_constraint)
    ∷ ("CREATE", kw_create)
    ∷ ("CROSS", kw_cross)
    ∷ ("CURRENT", kw_current)
    ∷ ("CURRENT_DATE", kw_current_date)
    ∷ ("CURRENT_TIME", kw_current_time)
    ∷ ("CURRENT_TIMESTAMP", kw_current_timestamp)
    ∷ ("DATABASE", kw_database)
    ∷ ("DEFAULT", kw_default)
    ∷ ("DEFERRABLE", kw_deferrable)
    ∷ ("DEFERRED", kw_deferred)
    ∷ ("DELETE", kw_delete)
    ∷ ("DESC", kw_desc)
    ∷ ("DETACH", kw_detach)
    ∷ ("DISTINCT", kw_distinct)
    ∷ ("DO", kw_do)
    ∷ ("DROP", kw_drop)
    ∷ ("EACH", kw_each)
    ∷ ("ELSE", kw_else)
    ∷ ("END", kw_end)
    ∷ ("ESCAPE", kw_escape)
    ∷ ("EXCEPT", kw_except)
    ∷ ("EXCLUDE", kw_exclude)
    ∷ ("EXCLUSIVE", kw_exclusive)
    ∷ ("EXISTS", kw_exists)
    ∷ ("EXPLAIN", kw_explain)
    ∷ ("FAIL", kw_fail)
    ∷ ("FILTER", kw_filter)
    ∷ ("FIRST", kw_first)
    ∷ ("FOLLOWING", kw_following)
    ∷ ("FOR", kw_for)
    ∷ ("FOREIGN", kw_foreign)
    ∷ ("FROM", kw_from)
    ∷ ("FULL", kw_full)
    ∷ ("FALSE", kw_false)
    ∷ ("GENERATED", kw_generated)
    ∷ ("GLOB", kw_glob)
    ∷ ("GROUP", kw_group)
    ∷ ("GROUPS", kw_groups)
    ∷ ("HAVING", kw_having)
    ∷ ("IF", kw_if)
    ∷ ("IGNORE", kw_ignore)
    ∷ ("IMMEDIATE", kw_immediate)
    ∷ ("IN", kw_in)
    ∷ ("INDEX", kw_index)
    ∷ ("INDEXED", kw_indexed)
    ∷ ("INITIALLY", kw_initially)
    ∷ ("INNER", kw_inner)
    ∷ ("INSERT", kw_insert)
    ∷ ("INSTEAD", kw_instead)
    ∷ ("INTERSECT", kw_intersect)
    ∷ ("INTO", kw_into)
    ∷ ("IS", kw_is)
    ∷ ("ISNULL", kw_isnull)
    ∷ ("JOIN", kw_join)
    ∷ ("KEY", kw_key)
    ∷ ("LAST", kw_last)
    ∷ ("LEFT", kw_left)
    ∷ ("LIKE", kw_like)
    ∷ ("LIMIT", kw_limit)
    ∷ ("MATCH", kw_match)
    ∷ ("MATERIALIZED", kw_materialized)
    ∷ ("NATURAL", kw_natural)
    ∷ ("NO", kw_no)
    ∷ ("NOT", kw_not)
    ∷ ("NOTHING", kw_nothing)
    ∷ ("NOTNULL", kw_notnull)
    ∷ ("NULL", kw_null)
    ∷ ("NULLS", kw_nulls)
    ∷ ("OF", kw_of)
    ∷ ("OFFSET", kw_offset)
    ∷ ("ON", kw_on)
    ∷ ("OR", kw_or)
    ∷ ("ORDER", kw_order)
    ∷ ("OTHERS", kw_others)
    ∷ ("OUTER", kw_outer)
    ∷ ("OVER", kw_over)
    ∷ ("PARTITION", kw_partition)
    ∷ ("PLAN", kw_plan)
    ∷ ("PRAGMA", kw_pragma)
    ∷ ("PRECEDING", kw_preceding)
    ∷ ("PRIMARY", kw_primary)
    ∷ ("QUERY", kw_query)
    ∷ ("RAISE", kw_raise)
    ∷ ("RANGE", kw_range)
    ∷ ("RECURSIVE", kw_recursive)
    ∷ ("REFERENCES", kw_references)
    ∷ ("REGEXP", kw_regexp)
    ∷ ("REINDEX", kw_reindex)
    ∷ ("RELEASE", kw_release)
    ∷ ("RENAME", kw_rename)
    ∷ ("REPLACE", kw_replace)
    ∷ ("RESTRICT", kw_restrict)
    ∷ ("RESPECT", kw_respect)
    ∷ ("RETURNING", kw_returning)
    ∷ ("RIGHT", kw_right)
    ∷ ("ROLLBACK", kw_rollback)
    ∷ ("ROW", kw_row)
    ∷ ("ROWS", kw_rows)
    ∷ ("SAVEPOINT", kw_savepoint)
    ∷ ("SELECT", kw_select)
    ∷ ("SET", kw_set)
    ∷ ("TABLE", kw_table)
    ∷ ("TEMP", kw_temp)
    ∷ ("TEMPORARY", kw_temporary)
    ∷ ("THEN", kw_then)
    ∷ ("TIES", kw_ties)
    ∷ ("TO", kw_to)
    ∷ ("TRANSACTION", kw_transaction)
    ∷ ("TRIGGER", kw_trigger)
    ∷ ("TRUE", kw_true)
    ∷ ("UNBOUNDED", kw_unbounded)
    ∷ ("UNION", kw_union)
    ∷ ("UNIQUE", kw_unique)
    ∷ ("UPDATE", kw_update)
    ∷ ("USING", kw_using)
    ∷ ("VACUUM", kw_vacuum)
    ∷ ("VALUES", kw_values)
    ∷ ("VIEW", kw_view)
    ∷ ("VIRTUAL", kw_virtual)
    ∷ ("WHEN", kw_when)
    ∷ ("WHERE", kw_where)
    ∷ ("WINDOW", kw_window)
    ∷ ("WITH", kw_with)
    ∷ ("WITHOUT", kw_without)
    ∷ []

lookup_keyword : List (String × Keyword) → Text → Option Keyword
lookup_keyword [] s = none
lookup_keyword ((w, k) ∷ table) s = if text_eq (codes w) s then some k else lookup_keyword table s

-- `KEYWORDS[upper]`
unfoldable pub keyword_of : Text → Option Keyword
unfolding lookup_keyword text_eq
keyword_of upper = lookup_keyword keywords upper
