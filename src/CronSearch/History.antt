-- ===== src/CronSearch/History.antt =====
-- The history limits in Reconcile of internal/controller/cronsearch_controller.go: the oldest
-- finished searches beyond the limit are deleted. sort.Slice is an insertion sort here; it leaves
-- the order of equal elements open, and so do the theorems.
pub mod Laws
use ocular.Prelude.{
  ℕ, zero, suc, ◌+◌, Bool, true, false, not, Option, none, some, List, [], ◌∷◌, if◌then◌else◌, leb,
  is_some, length,
}
use ocular.Prelude.Int.{ℤ, pos, negsuc, ltbℤ, ◌-ℤ◌}
use ocular.Kube.Time.{Time}
use ocular.Api.Search.{Search}

-- the comparison given to sort.Slice, on start times
abbrev pub less : Option Time → Option Time → Bool
less none t = is_some t
less (some s) none = false
less (some s) (some t) = ltbℤ s t

abbrev pub starts_before : Search → Search → Bool
starts_before a b = less a.status.start_time b.status.start_time

unfoldable pub sort_insert : Search → List Search → List Search
sort_insert s [] = s ∷ []
sort_insert s (t ∷ ts) =
    let rest = sort_insert s ts in if starts_before t s then t ∷ rest else s ∷ t ∷ ts

unfoldable pub sort_searches : List Search → List Search
unfolding sort_insert
sort_searches [] = []
sort_searches (s ∷ ss) = sort_insert s (sort_searches ss)

-- the loop from position i on, for `count` elements: those that it deletes before its `break`
unfoldable pub delete_loop : ℕ → ℕ → ℤ → List Search → List Search
delete_loop i count limit [] = []
delete_loop i count limit (s ∷ ss) =
    let rest = delete_loop (suc i) count limit ss in
    if ltbℤ (pos i) (pos count -ℤ limit) then s ∷ rest else []

-- the searches that are deleted for a limit
unfoldable pub expired : Option ℤ → List Search → List Search
unfolding sort_searches delete_loop
expired none searches = []
expired (some limit) searches =
    let sorted = sort_searches searches in delete_loop 0 (length sorted) limit sorted
