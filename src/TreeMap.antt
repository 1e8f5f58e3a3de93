-- ===== src/TreeMap.antt =====
-- What the extent map uses of its ordered map (pkg/treemap, a copy of github.com/igrmk/treemap/v2).
-- The map is a parameter, with the documented behaviour of its operations as laws about the list of
-- entries that a full iteration visits.
pub mod Entries
pub mod Model
use lsvd.Base.{ℕ, ◌≡◌, List, []}
use Entries.{Sorted, insert, erase, replace, from_floor, from_lower_bound}

pub record TreeMap (V : Type 0) : Type 1 where
  pub Map : Type 0
  pub empty : Map
  -- `Iterator` and `Next` to the end
  pub entries : Map → List (ℕ × V)
  -- the same from `Floor(key)` and from `LowerBound(key)` on
  pub floor : Map → ℕ → List (ℕ × V)
  pub lower_bound : Map → ℕ → List (ℕ × V)
  pub set : Map → ℕ → V → Map
  pub del : Map → ℕ → Map
  -- an assignment through the `ValuePtr` of an iterator that stands at the key
  pub write : Map → ℕ → V → Map
  pub entries-Sorted : (m : Map) → Sorted 0 (entries m)
  pub entries-empty : entries empty ≡ []
  pub floor_lem : (m : Map) (k : ℕ) → floor m k ≡ from_floor k (entries m)
  pub lower_bound_lem : (m : Map) (k : ℕ) → lower_bound m k ≡ from_lower_bound k (entries m)
  pub entries-set : (m : Map) (k : ℕ) (v : V) → entries (set m k v) ≡ insert k v (entries m)
  pub entries-del : (m : Map) (k : ℕ) → entries (del m k) ≡ erase k (entries m)
  pub entries-write : (m : Map) (k : ℕ) (v : V) → entries (write m k v) ≡ replace k v (entries m)
