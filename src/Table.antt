-- ===== src/Table.antt =====
-- A database table whose primary key is three texts.
use anima.Prelude.{
  String, Option, some, ◌&&◌, Bool, ◌≡◌, str_eq, if◌then◌else◌, eq_refl, arith, false,
}

abbrev pub Table : Type 0 → Type 0
Table V = String → String → String → Option V

unfoldable pub same_key : String → String → String → String → String → String → Bool
same_key a b c a' b' c' = str_eq a a' && (str_eq b b' && str_eq c c')

module _ {V : Type 0} where
  -- `INSERT … ON CONFLICT(a, b, c) DO UPDATE`
  unfoldable pub upsert : Table V → String → String → String → V → Table V
  unfolding same_key
  upsert table a b c v a' b' c' = if same_key a b c a' b' c' then some v else table a' b' c'

  pub upsert_self : (table : Table V) (a b c : String) (v : V) → upsert table a b c v a b c ≡ some v
  unfolding upsert
  upsert_self table a b c v = simp eq_refl

  pub upsert_other :
      (table : Table V) (a b c : String) (v : V) (a' b' c' : String)
      → same_key a b c a' b' c' ≡ false
      → upsert table a b c v a' b' c' ≡ table a' b' c'
  unfolding upsert
  upsert_other table a b c v a' b' c' h = ground arith
