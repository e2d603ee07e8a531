-- ===== src/Project/Edges/Cycle/Whites.antt =====
-- The white ids of a search: each visit leaves fewer.
use mathlib.Core.List.Memᴰ
use draiver.Prelude.{
  ℕ, suc, ◌≤◌, ◌<◌, String, ◌≡◌, refl, sym, ap, ◌∙◌, inl, inr, Bool, true, false, List, [], ◌∷◌,
  Memᴰ, arith, ◌==◌, if◌then◌else◌, Bool-cases,
}
use draiver.Prelude.Maps.{string_key, nat_key, ref_key, insert, lookup-insert}
use draiver.Project.Edges.Cycle.{Color, white, gray, black, Dfs, color_or_white, color_at}

abbrev pub is_white : Color → Bool
is_white white = true
is_white c = false

-- How many ids of the list are white.
abbrev pub whites : List String → Dfs → ℕ
whites [] d = 0
whites (x ∷ xs) d = if is_white (color_at d x) then suc (whites xs d) else whites xs d

pub color_at-insert :
    (d : Dfs) (node x : String) (c : Color) (stack : List String)
    → color_at (record { color = insert node c d.color; stack = stack }) x
      ≡ (if node == x then c else color_at d x)
unfolding color_at color_or_white
color_at-insert d node x c stack =
    ap color_or_white (lookup-insert node x c d.color)
    ∙ elim (Bool-cases (node == x)) [ inl t ↦ rw t refl | inr f ↦ rw f refl ]

count_step :
    (a b : Color) (m n : ℕ)
    → (a ≡ white → b ≡ white)
    → m ≤ n
    → (if is_white a then suc m else m) ≤ (if is_white b then suc n else n)
count_step white b m n f h = rw (f refl) (omega (arith, h))
count_step gray white m n f h = omega (arith, h)
count_step gray gray m n f h = h
count_step gray black m n f h = h
count_step black white m n f h = omega (arith, h)
count_step black gray m n f h = h
count_step black black m n f h = h

-- A search that turns no id white leaves no more of them.
pub whites-le :
    (xs : List String) (d e : Dfs)
    → ((x : String) → color_at e x ≡ white → color_at d x ≡ white)
    → whites xs e ≤ whites xs d
whites-le [] d e h = omega arith
whites-le (x ∷ xs) d e h = count_step (color_at e x) (color_at d x) _ _ (h x) (whites-le xs d e h)

pub whites-lt :
    (xs : List String) (d e : Dfs) (node : String)
    → ((x : String) → color_at e x ≡ white → color_at d x ≡ white)
    → color_at d node ≡ white
    → is_white (color_at e node) ≡ false
    → Memᴰ node xs
    → whites xs e < whites xs d
whites-lt [] d e node h w g m = elim m [ ]
whites-lt (x ∷ xs) d e node h w g m = elim (Memᴰ.cases_cons m) [
  | inl p ↦
      let b : is_white (color_at d x) ≡ true =
        ap (λ y. is_white (color_at d y)) (sym p) ∙ ap is_white w in
      let a : is_white (color_at e x) ≡ false = ap (λ y. is_white (color_at e y)) (sym p) ∙ g in
      rw (a, b) (omega (arith, whites-le xs d e h))
  | inr k ↦
      let r = whites-lt xs d e node h w g k in
      let s = white_there (color_at e x) (color_at d x) (h x) in ground (arith, r, s)
]
  where
    white_there : (a b : Color) → (a ≡ white → b ≡ white) → is_white a ≡ true → is_white b ≡ true
    white_there white b f t = ap is_white (f refl)
    white_there gray b f t = cc
    white_there black b f t = cc
