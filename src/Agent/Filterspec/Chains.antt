-- ===== src/Agent/Filterspec/Chains.antt =====
-- The chunks of ports of internal/agent/filterspec.go.
use home_kai.Base.{
  ℕ, zero, suc, ◌≤◌, Text, true, not, ◌&&◌, ◌≡◌, refl, ap, ◌∙◌, List, [], ◌∷◌, ◌++◌, all, gather,
  take, drop, length, is_empty, leb, arith,
}
use home_kai.Agent.Filterspec.{chunks, multiport}

take-append-drop : (n : ℕ) (xs : List Text) → take n xs ++ drop n xs ≡ xs
take-append-drop zero xs = refl
take-append-drop (suc n) [] = refl
take-append-drop (suc n) (x ∷ xs) = ap (λ ys. x ∷ ys) (take-append-drop n xs)

length-drop-le : (n : ℕ) (xs : List Text) → length (drop n xs) ≤ length xs
length-drop-le zero xs = omega arith
length-drop-le (suc n) [] = omega arith
length-drop-le (suc n) (x ∷ xs) = omega (arith, length-drop-le n xs)

length-take-le : (n : ℕ) (xs : List Text) → length (take n xs) ≤ n
length-take-le zero xs = omega arith
length-take-le (suc n) [] = omega arith
length-take-le (suc n) (x ∷ xs) = omega (arith, length-take-le n xs)

gather-chunks :
    (fuel n : ℕ) (xs : List Text) → length xs ≤ fuel → gather (λ c. c) (chunks fuel (suc n) xs) ≡ xs
unfolding chunks
gather-chunks zero n [] h = refl
gather-chunks zero n (x ∷ xs) h = absurd (omega arith)
gather-chunks (suc fuel) n [] h = refl
gather-chunks (suc fuel) n (x ∷ xs) h =
    ap (λ ys. x ∷ (take n xs ++ ys))
      (gather-chunks fuel n (drop n xs) (omega (arith, length-drop-le n xs)))
    ∙ ap (λ ys. x ∷ ys) (take-append-drop n xs)

chunks-bounded :
    (fuel n : ℕ) (xs : List Text)
    → all (λ c. not (is_empty c) && leb (length c) (suc n)) (chunks fuel (suc n) xs) ≡ true
unfolding chunks
chunks-bounded zero n xs = refl
chunks-bounded (suc fuel) n [] = refl
chunks-bounded (suc fuel) n (x ∷ xs) =
    ground (arith, chunks-bounded fuel n (drop n xs), length-take-le n xs)

-- A port list is cut into chunks of one to fifteen ports, which in order are all of its ports.
pub port_chunks :
    (ports : List Text)
    → (gather (λ c. c) (chunks (length ports) multiport ports) ≡ ports)
      × (all
            (λ c. not (is_empty c) && leb (length c) multiport)
            (chunks (length ports) multiport ports)
          ≡ true)
port_chunks ports =
    (gather-chunks (length ports) 14 ports (omega arith), chunks-bounded (length ports) 14 ports)
