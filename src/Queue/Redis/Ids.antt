-- ===== src/Queue/Redis/Ids.antt =====
-- Lists of item ids without duplicates, and sums over them.
use browser_agent.Common.{
  ℕ, ◌+◌, String, ◌≡◌, refl, false, List, [], ◌∷◌, ◌++◌, All, arith, str_eq, eq_iff,
}

abbrev pub Absent : String → List String → Type 0
Absent id = All (λ k. str_eq k id ≡ false)

abbrev pub NoDup : List String → Type 0
NoDup [] = Unit
NoDup (k ∷ ks) = Absent k ks × NoDup ks

Absent-snoc :
    (xs : List String) (k id : String)
    → Absent k (xs ++ id ∷ [])
    → Absent k xs × (str_eq id k ≡ false)
Absent-snoc [] k id h = (tt, h.0)
Absent-snoc (x ∷ xs) k id h = let (a, b) = Absent-snoc xs k id h.1 in ((h.0, a), b)

pub NoDup-snoc : (ks : List String) (id : String) → NoDup (ks ++ id ∷ []) → NoDup ks × Absent id ks
NoDup-snoc [] id h = (tt, tt)
NoDup-snoc (k ∷ ks) id h =
    let (a, b) = NoDup-snoc ks id h.1 in
    let (c, d) = Absent-snoc ks k id h.0 in
    ((c, a), (ground (arith, d, eq_iff k id, eq_iff id k), b))

-- A condition of every id but the last, and of the last.
pub All-snoc :
    (Q : String → Type 0) (ks : List String) (id : String) → All Q (ks ++ id ∷ []) → All Q ks × Q id
All-snoc Q [] id h = (tt, h.0)
All-snoc Q (k ∷ ks) id h = let (a, b) = All-snoc Q ks id h.1 in ((h.0, a), b)

-- A condition that carries over for the ids of a list that lacks `id`.
pub All-Absent :
    (Q S : String → Type 0) (id : String) (ks : List String)
    → Absent id ks
    → ((k : String) → str_eq k id ≡ false → Q k → S k)
    → All Q ks
    → All S ks
All-Absent Q S id [] a f h = tt
All-Absent Q S id (k ∷ ks) a f h = (f k a.0 h.0, All-Absent Q S id ks a.1 f h.1)

unfoldable pub sum : (String → ℕ) → List String → ℕ
sum g [] = 0
sum g (k ∷ ks) = g k + sum g ks

pub sum-snoc :
    (g : String → ℕ) (ks : List String) (id : String) → sum g (ks ++ id ∷ []) ≡ sum g ks + g id
unfolding sum
sum-snoc g [] id = omega arith
sum-snoc g (k ∷ ks) id = omega (arith, sum-snoc g ks id)

pub sum-Absent :
    (g h : String → ℕ) (id : String) (ks : List String)
    → Absent id ks
    → ((k : String) → str_eq k id ≡ false → g k ≡ h k)
    → sum g ks ≡ sum h ks
unfolding sum
sum-Absent g h id [] a e = refl
sum-Absent g h id (k ∷ ks) a e = omega (arith, sum-Absent g h id ks a.1 e, e k a.0)
