-- ===== src/CronSearch/History/Laws.antt =====
-- Which searches the history limits delete.
use mathlib.Core.List.{Perm}
use mathlib.Core.List.Perm
use ocular.Prelude.{
  ℕ, zero, suc, ◌-◌, ◌≤◌, true, false, Option, none, some, List, [], ◌∷◌, ◌++◌, ◌≡◌, inl, inr, refl,
  arith, ap, Bool-cases, if◌then◌else◌, sym, ◌∙◌, length, take, drop, take-append-drop, All, leb,
}
use ocular.Prelude.Int.{pos, ltbℤ, ◌-ℤ◌, -ℤ_parts, ltbℤ→lt, ltbℤ→ge}
use ocular.Kube.Time.{Time}
use ocular.Api.Search.{Search}
use ocular.CronSearch.Children.Laws.{NotAfter, NotAfter-trans}
use ocular.CronSearch.History.{
  less, starts_before, sort_insert, sort_searches, delete_loop, expired,
}

sort_insert-perm : (s : Search) (ts : List Search) → Perm (sort_insert s ts) (s ∷ ts)
unfolding sort_insert
sort_insert-perm s [] = Perm.refl (s ∷ [])
sort_insert-perm s (t ∷ ts) = elim (Bool-cases (starts_before t s)) [
  | inl h ↦ rw h (Perm.trans (Perm.cons t (sort_insert-perm s ts)) (Perm.swap s t ts))
  | inr h ↦ rw h (Perm.refl (s ∷ t ∷ ts))
]

sort_searches-perm : (ss : List Search) → Perm (sort_searches ss) ss
unfolding sort_searches
sort_searches-perm [] = Perm.refl []
sort_searches-perm (s ∷ ss) =
    Perm.trans (sort_insert-perm s (sort_searches ss)) (Perm.cons s (sort_searches-perm ss))

-- the start time of the other search is not before that of this one; a search that has none comes
-- before those that have one
abbrev pub NotBefore : Search → Search → Type 0
NotBefore s t = NotAfter s.status.start_time t.status.start_time

-- each search is followed only by searches that did not start before it
abbrev pub Sorted : List Search → Type 0
Sorted [] = Unit
Sorted (s ∷ ss) = All (NotBefore s) ss × Sorted ss

less-NotAfter : (a b : Option Time) → less a b ≡ true → NotAfter a b
less-NotAfter none b h = tt
less-NotAfter (some a) none h = absurd (cc)
less-NotAfter (some a) (some b) h = omega (arith, ltbℤ→lt a b h)

not_less-NotAfter : (a b : Option Time) → less a b ≡ false → NotAfter b a
not_less-NotAfter a none h = tt
not_less-NotAfter none (some b) h = absurd (cc)
not_less-NotAfter (some a) (some b) h = ltbℤ→ge a b h

All-NotBefore-trans :
    (s t : Search) (ts : List Search) → NotBefore s t → All (NotBefore t) ts → All (NotBefore s) ts
All-NotBefore-trans s t [] h k = tt
All-NotBefore-trans s t (u ∷ ts) h k = (
  NotAfter-trans s.status.start_time t.status.start_time u.status.start_time h k.0,
  All-NotBefore-trans s t ts h k.1,
)

All-sort_insert :
    (r s : Search) (ts : List Search)
    → NotBefore r s
    → All (NotBefore r) ts
    → All (NotBefore r) (sort_insert s ts)
unfolding sort_insert
All-sort_insert r s [] h k = (h, tt)
All-sort_insert r s (t ∷ ts) h k = elim (Bool-cases (starts_before t s)) [
  | inl e ↦ rw e (k.0, All-sort_insert r s ts h k.1)
  | inr e ↦ rw e (h, k)
]

sort_insert-Sorted : (s : Search) (ts : List Search) → Sorted ts → Sorted (sort_insert s ts)
unfolding sort_insert
sort_insert-Sorted s [] h = (tt, tt)
sort_insert-Sorted s (t ∷ ts) h = elim (Bool-cases (starts_before t s)) [
  | inl e ↦ rw e (
    All-sort_insert t s ts (less-NotAfter t.status.start_time s.status.start_time e) h.0,
    sort_insert-Sorted s ts h.1,
  )
  | inr e ↦
      let first : NotBefore s t = not_less-NotAfter t.status.start_time s.status.start_time e in
      rw e ((first, All-NotBefore-trans s t ts first h.0), h)
]

sort_searches-Sorted : (ss : List Search) → Sorted (sort_searches ss)
unfolding sort_searches
sort_searches-Sorted [] = tt
sort_searches-Sorted (s ∷ ss) = sort_insert-Sorted s (sort_searches ss) (sort_searches-Sorted ss)

-- everything in the first list comes before everything in the second
abbrev pub AllBefore : List Search → List Search → Type 0
AllBefore old new = All (λ s. All (NotBefore s) new) old

All-append_right :
    (s : Search) (xs ys : List Search) → All (NotBefore s) (xs ++ ys) → All (NotBefore s) ys
All-append_right s [] ys h = h
All-append_right s (x ∷ xs) ys h = All-append_right s xs ys h.1

Sorted-AllBefore : (xs ys : List Search) → Sorted (xs ++ ys) → AllBefore xs ys
Sorted-AllBefore [] ys h = tt
Sorted-AllBefore (x ∷ xs) ys h = (All-append_right x xs ys h.0, Sorted-AllBefore xs ys h.1)

within :
    (i count limit : ℕ)
    → ltbℤ (pos i) (pos count -ℤ pos limit) ≡ (if leb (count - limit) i then false else true)
within i count limit = ground (arith, -ℤ_parts (pos count) (pos limit))

take-nil {ℓ} : {A : Type ℓ} (n : ℕ) → take {A = A} n [] ≡ []
take-nil zero = refl
take-nil (suc n) = refl

-- the loop deletes what is left of the first `count - limit` elements
delete_loop-take :
    (i count limit : ℕ) (ss : List Search)
    → delete_loop i count (pos limit) ss ≡ take (count - limit - i) ss
unfolding delete_loop
delete_loop-take i count limit [] = sym (take-nil (count - limit - i))
delete_loop-take i count limit (s ∷ ss) = elim (Bool-cases (leb (count - limit) i)) [
  | inl e ↦
      let none_left : zero ≡ count - limit - i = ground arith in
      rw (within i count limit, e) (ap (λ n. take n (s ∷ ss)) none_left)
  | inr e ↦
      let one_left : suc (count - limit - suc i) ≡ count - limit - i = ground arith in
      rw (within i count limit, e)
        (ap (λ l. s ∷ l) (delete_loop-take (suc i) count limit ss)
          ∙ ap (λ n. take n (s ∷ ss)) one_left)
]

expired-take :
    (limit : ℕ) (ss : List Search)
    → expired (some (pos limit)) ss ≡ take (length (sort_searches ss) - limit) (sort_searches ss)
unfolding expired
expired-take limit ss =
    let sorted : List Search = sort_searches ss in
    let all : length sorted - limit - 0 ≡ length sorted - limit = omega arith in
    delete_loop-take 0 (length sorted) limit sorted ∙ ap (λ n. take n sorted) all

length-sort_insert : (s : Search) (ts : List Search) → length (sort_insert s ts) ≡ suc (length ts)
unfolding sort_insert
length-sort_insert s [] = refl
length-sort_insert s (t ∷ ts) = elim (Bool-cases (starts_before t s)) [
  | inl h ↦ rw h (ap (λ n. suc n) (length-sort_insert s ts))
  | inr h ↦ rw h refl
]

length-sort_searches : (ss : List Search) → length (sort_searches ss) ≡ length ss
unfolding sort_searches
length-sort_searches [] = refl
length-sort_searches (s ∷ ss) =
    length-sort_insert s (sort_searches ss) ∙ ap (λ n. suc n) (length-sort_searches ss)

length-take : (n : ℕ) (ss : List Search) → n ≤ length ss → length (take n ss) ≡ n
length-take zero ss h = refl
length-take (suc n) [] h = absurd (omega arith)
length-take (suc n) (s ∷ ss) h = ap (λ m. suc m) (length-take n ss (omega arith))

-- the searches that stay
abbrev pub kept : ℕ → List Search → List Search
kept limit ss = let sorted = sort_searches ss in drop (length sorted - limit) sorted

-- For a limit that is not negative, the searches that the history limit deletes and those that stay
-- are the searches that there are; as many are deleted as there are beyond the limit; and no search
-- that stays has an earlier start time than one that is deleted, where a search without a start
-- time counts as earlier than all that have one.
pub expired-oldest :
    (limit : ℕ) (ss : List Search)
    → Perm (expired (some (pos limit)) ss ++ kept limit ss) ss
      × (length (expired (some (pos limit)) ss) ≡ length ss - limit)
      × AllBefore (expired (some (pos limit)) ss) (kept limit ss)
expired-oldest limit ss =
    let sorted : List Search = sort_searches ss in
    let n : ℕ = length sorted - limit in
    rw (expired-take limit ss, take-append-drop n sorted)
      (
        sort_searches-perm ss,
        length-take n sorted (omega arith) ∙ ap (λ m. m - limit) (length-sort_searches ss),
        Sorted-AllBefore (take n sorted) (drop n sorted)
            (rw (take-append-drop n sorted) (sort_searches-Sorted ss)),
      )
