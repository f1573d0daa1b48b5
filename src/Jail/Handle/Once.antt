-- ===== src/Jail/Handle/Once.antt =====
-- However goroutines interleave, one handle removes its jail once.
use runj.Prelude.{
  ℕ, zero, suc, ◌+◌, ◌≤◌, Bool, true, false, ◌≡◌, refl, sym, ◌∙◌, List, [], ◌∷◌, ◌++◌, arith,
}
use runj.Jail.Handle.{
  Caller, System, Move, Step, Reachable, all_locking, checking, calling, marking, failing,
  succeeding, succeeded, lock, refuse, go_on, not_removed, destroy, mark, unlock_failing,
  unlock_succeeding, move, start, next,
}

-- How many goroutines are at a place of some kind.
abbrev pub total : (Caller → ℕ) → List Caller → ℕ
total f [] = 0
total f (p ∷ ps) = f p + total f ps

total-append : (f : Caller → ℕ) (ps qs : List Caller) → total f (ps ++ qs) ≡ total f ps + total f qs
total-append f [] qs = omega arith
total-append f (p ∷ ps) qs = omega (arith, total-append f ps qs)

-- It holds the mutex.
abbrev pub holding : Caller → ℕ
holding checking = 1
holding calling = 1
holding marking = 1
holding failing = 1
holding succeeding = 1
holding _ = 0

-- It may still make the system call, or has made it and has not stored that.
abbrev pub busy : Caller → ℕ
busy calling = 1
busy marking = 1
busy _ = 0

-- Its system call has destroyed the jail.
abbrev pub destroyed : Caller → ℕ
destroyed marking = 1
destroyed succeeding = 1
destroyed succeeded = 1
destroyed _ = 0

abbrev pub marked : Caller → ℕ
marked succeeding = 1
marked succeeded = 1
marked _ = 0

-- Remove has returned nil.
abbrev pub returned : Caller → ℕ
returned succeeded = 1
returned _ = 0

abbrev bit : Bool → ℕ
bit true = 1
bit false = 0

record Exclusive (callers : List Caller) (locked removed : Bool) : Type 0 where
  holders : total holding callers ≡ bit locked
  marks : total marked callers ≡ bit removed
  settled : removed ≡ true → total busy callers ≡ 0

total-le :
    (f g : Caller → ℕ) → ((p : Caller) → f p ≤ g p) → (ps : List Caller) → total f ps ≤ total g ps
total-le f g h [] = omega arith
total-le f g h (p ∷ ps) = omega (arith, h p, total-le f g h ps)

busy-le-holding : (p : Caller) → busy p ≤ holding p
busy-le-holding calling = omega arith
busy-le-holding marking = omega arith
busy-le-holding _ = omega arith

returned-le-marked : (p : Caller) → returned p ≤ marked p
returned-le-marked succeeded = omega arith
returned-le-marked _ = omega arith

-- A goroutine that has destroyed the jail has stored that or is about to.
abbrev unsettled : Caller → ℕ
unsettled p = busy p + marked p

destroyed-le-unsettled : (p : Caller) → destroyed p ≤ unsettled p
destroyed-le-unsettled marking = omega arith
destroyed-le-unsettled succeeding = omega arith
destroyed-le-unsettled succeeded = omega arith
destroyed-le-unsettled _ = omega arith

total-unsettled : (ps : List Caller) → total unsettled ps ≡ total busy ps + total marked ps
total-unsettled [] = omega arith
total-unsettled (p ∷ ps) = omega (arith, total-unsettled ps)

-- One move, among others that have `H` holders, `M` that have stored `removed`, and `B` busy ones.
move_lem :
    {p p' : Caller} {l l' r r' : Bool} (H M B : ℕ)
    → Move p l r p' l' r'
    → B ≤ H
    → H + holding p ≡ bit l
    → M + marked p ≡ bit r
    → (r ≡ true → B + busy p ≡ 0)
    → (H + holding p' ≡ bit l') × (M + marked p' ≡ bit r') × (r' ≡ true → B + busy p' ≡ 0)
move_lem H M B (lock r) b h m s = ground arith
move_lem H M B (refuse l) b h m s = ground arith
move_lem H M B (go_on l) b h m s = ground arith
move_lem H M B (not_removed l r) b h m s = ground arith
move_lem H M B (destroy l r) b h m s = ground arith
move_lem H M B (mark l r) b h m s = ground arith
move_lem H M B (unlock_failing l r) b h m s = ground arith
move_lem H M B (unlock_succeeding l r) b h m s = ground arith

-- The others, and the one that moves
total-around :
    (f : Caller → ℕ) (before after : List Caller) (p : Caller)
    → total f (before ++ p ∷ after) ≡ total f (before ++ after) + f p
total-around f before after p =
    omega (arith, total-append f before (p ∷ after), total-append f before after)

step-Exclusive :
    (s t : System)
    → Step s t
    → Exclusive s.callers s.locked s.removed
    → Exclusive t.callers t.locked t.removed
step-Exclusive _ _ (move before after {p} {p'} {l} {l'} {r} {r'} m) k =
    let others = before ++ after in
    let (h, d, b) =
      move_lem (total holding others) (total marked others) (total busy others) m
        (total-le busy holding busy-le-holding others)
        (sym (total-around holding before after p) ∙ k.holders)
        (sym (total-around marked before after p) ∙ k.marks)
        (λ e. sym (total-around busy before after p) ∙ k.settled e) in
    record {
      holders = total-around holding before after p' ∙ h;
      marks = total-around marked before after p' ∙ d;
      settled = λ e. total-around busy before after p' ∙ b e;
    }

start-Exclusive : (n : ℕ) → Exclusive (all_locking n) false false
start-Exclusive zero = record { holders = refl; marks = refl; settled = λ e. refl }
start-Exclusive (suc n) =
    let k = start-Exclusive n in
    record { holders = omega (arith, k.holders); marks = omega (arith, k.marks); settled = λ e. cc }

Reachable-Exclusive : (n : ℕ) (s : System) → Reachable n s → Exclusive s.callers s.locked s.removed
Reachable-Exclusive n _ start = start-Exclusive n
Reachable-Exclusive n _ (next {s} {t} r x) = step-Exclusive s t x (Reachable-Exclusive n s r)

-- However many goroutines call Remove on one handle and however their steps interleave: at most one
-- of them destroys the jail, at most one returns nil, and once one has returned nil, `removed` is
-- stored and none makes the system call any more.
pub remove_once :
    (n : ℕ) (s : System)
    → Reachable n s
    → (total destroyed s.callers ≤ 1)
      × (total returned s.callers ≤ 1)
      × (total returned s.callers ≡ 1 → (s.removed ≡ true) × (total busy s.callers ≡ 0))
remove_once n s r =
    let k = Reachable-Exclusive n s r in
    let u = total-le destroyed unsettled destroyed-le-unsettled s.callers in
    let v = total-unsettled s.callers in
    let w = total-le returned marked returned-le-marked s.callers in
    let x = total-le busy holding busy-le-holding s.callers in
    settle (total destroyed s.callers) (total returned s.callers) (total busy s.callers)
      (total marked s.callers) (total holding s.callers) s.locked s.removed k.holders k.marks
      k.settled (omega (arith, u, v)) w x
  where
    settle :
        (d t b m h : ℕ) (l r : Bool)
        → h ≡ bit l
        → m ≡ bit r
        → (r ≡ true → b ≡ 0)
        → d ≤ b + m
        → t ≤ m
        → b ≤ h
        → (d ≤ 1) × (t ≤ 1) × (t ≡ 1 → (r ≡ true) × (b ≡ 0))
    settle d t b m h true true e f g du tm bh = ground arith
    settle d t b m h true false e f g du tm bh = ground arith
    settle d t b m h false true e f g du tm bh = ground arith
    settle d t b m h false false e f g du tm bh = ground arith
