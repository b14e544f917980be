-- ===== src/Sched/Queues.antt =====
-- The lists of src/intrusive_list.h as the scheduler uses them. A node has one owner, so that it is
-- in a list at most once.
use me_mo_tracer.Base.{
  ℕ, ◌≡◌, refl, Bool, true, false, not, ◌&&◌, ◌||◌, List, [], ◌∷◌, ◌++◌, Option, none, some,
  if◌then◌else◌, leb, ltb, ◌==◌, ◌>>◌, assert, arith,
}

-- `owner` of the node is this list.
abbrev pub mem : ℕ → List ℕ → Bool
mem g [] = false
mem g (x ∷ xs) = (g == x) || mem g xs

abbrev pub without : ℕ → List ℕ → List ℕ
without g [] = []
without g (x ∷ xs) = if x == g then without g xs else x ∷ without g xs

-- `remove` asserts that the node is in the list.
unfoldable pub remove : ℕ → List ℕ → Option (List ℕ)
remove g xs = assert (mem g xs) >> some (without g xs)

-- The first node with the property, by the `next` pointers.
unfoldable pub first : (ℕ → Bool) → List ℕ → Option ℕ
first p [] = none
first p (x ∷ xs) = if p x then some x else first p xs

-- The search of `leave` for the place of a sleeper, after the node at the front.
unfoldable pub insert_after : (ℕ → ℕ) → ℕ → ℕ → List ℕ → List ℕ
insert_after key g cur [] = cur ∷ g ∷ []
insert_after key g cur (x ∷ xs) =
    if leb (key x) (key g) then cur ∷ insert_after key g x xs else cur ∷ g ∷ x ∷ xs

unfoldable pub insert_sleeper : (ℕ → ℕ) → ℕ → List ℕ → List ℕ
insert_sleeper key g [] = g ∷ []
insert_sleeper key g (x ∷ xs) = if ltb (key g) (key x) then g ∷ x ∷ xs else insert_after key g x xs

pub mem-without : (g h : ℕ) (xs : List ℕ) → mem g (without h xs) ≡ (not (g == h) && mem g xs)
mem-without g h [] = ground arith
mem-without g h (x ∷ xs) = ground (arith, mem-without g h xs)

pub mem-push : (g h : ℕ) (xs : List ℕ) → mem g (xs ++ (h ∷ [])) ≡ ((g == h) || mem g xs)
mem-push g h [] = ground arith
mem-push g h (x ∷ xs) = ground (arith, mem-push g h xs)

pub mem-insert_after :
    (key : ℕ → ℕ) (i g cur : ℕ) (xs : List ℕ)
    → mem i (insert_after key g cur xs) ≡ ((i == g) || mem i (cur ∷ xs))
unfolding insert_after
mem-insert_after key i g cur [] = ground arith
mem-insert_after key i g cur (x ∷ xs) = ground (arith, mem-insert_after key i g x xs)

pub mem-insert_sleeper :
    (key : ℕ → ℕ) (i g : ℕ) (xs : List ℕ) → mem i (insert_sleeper key g xs) ≡ ((i == g) || mem i xs)
unfolding insert_sleeper
mem-insert_sleeper key i g [] = ground arith
mem-insert_sleeper key i g (x ∷ xs) = ground (arith, mem-insert_after key i g x xs)

pub first-some :
    (p : ℕ → Bool) (xs : List ℕ) (x : ℕ) → first p xs ≡ some x → (mem x xs ≡ true) × (p x ≡ true)
unfolding first
first-some p [] x h = cc
first-some p (y ∷ ys) x h = ground (arith, first-some p ys x)

pub first-none :
    (p : ℕ → Bool) (xs : List ℕ) (x : ℕ) → first p xs ≡ none → mem x xs ≡ true → p x ≡ false
unfolding first
first-none p [] x h m = cc
first-none p (y ∷ ys) x h m = ground (arith, first-none p ys x)

-- No node is in the list twice.
abbrev pub nodup : List ℕ → Bool
nodup [] = true
nodup (x ∷ xs) = not (mem x xs) && nodup xs

pub nodup-without : (g : ℕ) (xs : List ℕ) → nodup xs ≡ true → nodup (without g xs) ≡ true
nodup-without g [] d = refl
nodup-without g (x ∷ xs) d = ground (arith, d, nodup-without g xs, mem-without x g xs)

pub nodup-push :
    (g : ℕ) (xs : List ℕ) → nodup xs ≡ true → mem g xs ≡ false → nodup (xs ++ (g ∷ [])) ≡ true
nodup-push g [] d m = refl
nodup-push g (x ∷ xs) d m = ground (arith, d, m, nodup-push g xs, mem-push x g xs)

nodup-insert_after :
    (key : ℕ → ℕ) (g cur : ℕ) (xs : List ℕ)
    → nodup (cur ∷ xs) ≡ true
    → mem g (cur ∷ xs) ≡ false
    → nodup (insert_after key g cur xs) ≡ true
unfolding insert_after
nodup-insert_after key g cur [] d m = ground (arith, m)
nodup-insert_after key g cur (x ∷ xs) d m =
    ground (arith, d, m, nodup-insert_after key g x xs, mem-insert_after key cur g x xs)

pub nodup-insert_sleeper :
    (key : ℕ → ℕ) (g : ℕ) (xs : List ℕ)
    → nodup xs ≡ true
    → mem g xs ≡ false
    → nodup (insert_sleeper key g xs) ≡ true
unfolding insert_sleeper
nodup-insert_sleeper key g [] d m = refl
nodup-insert_sleeper key g (x ∷ xs) d m = ground (arith, d, m, nodup-insert_after key g x xs)
