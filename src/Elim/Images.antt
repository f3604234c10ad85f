-- ===== src/Elim/Images.antt =====
-- The row operations on the products of a matrix with a vector, modulo q.
use native.Mathlib.Decide.{ℕ_discrete}
use meds2end.Base.{ℕ, ◌+◌, ◌*◌, ◌%◌, ◌<◌, ◌≡◌, ◌≢◌, refl, sym, ap, ◌∙◌, arith, List, set}
use meds2end.Base.{length, length-set, for_up, for_up_inv, ◌==◌, if◌then◌else◌, at-set-lt}
use meds2end.Base.{ne→==, eq→==, inl, inr, Bool-cases}
use meds2end.Base.Congr.{Congr, Congr-mod, Congr-add, Congr-mul, Congr-of_eq, Congr-sum}
use meds2end.Base.Grid.{entry}
use meds2end.Base.Sums.{sum, sum_ext, sum-add, sum-mul_left}
use meds2end.Params.{trine_q}
use meds2end.Field.{gf_mul, gf_sub}
use meds2end.Field.Arith.{gf_mul_lem, gf_sub_lem}
use meds2end.Matrix.Products.{IsReduced}
use meds2end.Elim.{swap_rows, scale_row, row_sub_mul}
use meds2end.Elim.Rows.{swap_rows_lem, scale_row_lem, row_sub_mul_lem}

-- An n x n matrix of reduced elements.
pub record IsMatrix (n : ℕ) (a : List ℕ) : Type 0 where
  pub size : length a ≡ n * n
  pub reduced : IsReduced a

gf_mul-lt : (a b : ℕ) → a < trine_q → b < trine_q → gf_mul a b < trine_q
gf_mul-lt a b ha hb = omega (arith, gf_mul_lem a b ha hb)

gf_sub-lt : (a b : ℕ) → a < trine_q → b < trine_q → gf_sub a b < trine_q
gf_sub-lt a b ha hb = omega (arith, gf_sub_lem a b ha hb)

-- A loop that writes reduced elements keeps a matrix.
row_loop-IsMatrix :
    (n row : ℕ) (v : ℕ → List ℕ → ℕ) (a : List ℕ)
    → ((c : ℕ) (b : List ℕ) → IsReduced b → v c b < trine_q)
    → IsMatrix n a
    → IsMatrix n (for_up n (λ c b. set b (row * n + c) (v c b)) a)
row_loop-IsMatrix n row v a small m =
    for_up_inv (λ c b. IsMatrix n b) _ n a m
      λ c b lt k. record {
        size = length-set b _ _ ∙ k.size;
        reduced = at-set-lt trine_q b _ _ k.reduced (small c b k.reduced);
      }

pub scale_row-IsMatrix :
    (n row x : ℕ) (a : List ℕ) → x < trine_q → IsMatrix n a → IsMatrix n (scale_row a row x n)
unfolding scale_row
scale_row-IsMatrix n row x a hx =
    row_loop-IsMatrix n row (λ c b. gf_mul (entry n b row c) x) a
      λ c b h. gf_mul-lt _ x (h (row * n + c)) hx

pub row_sub_mul-IsMatrix :
    (n dst src x : ℕ) (a : List ℕ)
    → x < trine_q
    → IsMatrix n a
    → IsMatrix n (row_sub_mul a dst src x n)
unfolding row_sub_mul
row_sub_mul-IsMatrix n dst src x a hx =
    row_loop-IsMatrix n dst (λ c b. gf_sub (entry n b dst c) (gf_mul x (entry n b src c))) a
      λ c b h. gf_sub-lt _ _ (h (dst * n + c)) (gf_mul-lt x _ hx (h (src * n + c)))

pub swap_rows-IsMatrix :
    (n r1 r2 : ℕ) (a : List ℕ) → IsMatrix n a → IsMatrix n (swap_rows a r1 r2 n)
unfolding swap_rows
swap_rows-IsMatrix n r1 r2 a m = elim (ℕ_discrete r1 r2) [
  | yes same ↦ rw (eq→== _ _ same) m
  | no apart ↦ rw (ne→== _ _ apart) (
      for_up_inv (λ c b. IsMatrix n b) _ n a m
        λ c b lt k. record {
          size = length-set _ _ _ ∙ length-set b _ _ ∙ k.size;
          reduced =
              at-set-lt trine_q (set b (r1 * n + c) (entry n b r2 c)) _ _
                (at-set-lt trine_q b _ _ k.reduced (k.reduced (r2 * n + c)))
                (k.reduced (r1 * n + c));
        })
]

-- Element i of the product of a matrix with the vector t.
abbrev pub image : ℕ → List ℕ → (ℕ → ℕ) → ℕ → ℕ
image n a t i = sum n (λ k. entry n a i k * t k)

module _ (n : ℕ) (a : List ℕ) (m : IsMatrix n a) (t : ℕ → ℕ) where
  pub image-swap_rows :
      (r1 r2 i : ℕ)
      → r1 < n
      → r2 < n
      → i < n
      → image n (swap_rows a r1 r2 n) t i
        ≡ (if i == r2 then image n a t r1 else if i == r1 then image n a t r2 else image n a t i)
  image-swap_rows r1 r2 i h1 h2 hi =
      sum_ext n _
        (λ k.
          (if i == r2 then entry n a r1 k else if i == r1 then entry n a r2 k else entry n a i k)
          * t k)
        (λ k lt. ap (λ (x : ℕ). x * t k) (swap_rows_lem n a m.size r1 r2 i k h1 h2 hi lt))
      ∙ elim (Bool-cases (i == r2)) [
        | inl e ↦ rw e refl
        | inr ne ↦
            rw ne (elim (Bool-cases (i == r1)) [ inl e ↦ rw e refl | inr other ↦ rw other refl ])
      ]

  pub image-scale_row_self :
      (row x : ℕ)
      → row < n
      → x < trine_q
      → Congr trine_q (image n (scale_row a row x n) t row) (x * image n a t row)
  image-scale_row_self row x hr hx =
      Congr-sum trine_q n _ (λ k. x * (entry n a row k * t k))
        (λ k lt.
          Congr-of_eq trine_q _ _ (
            ap (λ (y : ℕ). y * t k)
              (scale_row_lem n a m.size row x row k hr hr lt
                ∙ rw (eq→== row row refl)
                    (gf_mul_lem (entry n a row k) x (m.reduced (row * n + k)) hx)))
          ∙ Congr-mul trine_q (entry n a row k * x % trine_q) (entry n a row k * x) (t k) (t k)
              (Congr-mod trine_q (entry n a row k * x)) refl
          ∙ Congr-of_eq trine_q (entry n a row k * x * t k) (x * (entry n a row k * t k))
              (grind arith))
      ∙ Congr-of_eq trine_q _ _ (sum-mul_left n x _)

  pub image-scale_row_ne :
      (row x i : ℕ) → row < n → i < n → i ≢ row → image n (scale_row a row x n) t i ≡ image n a t i
  image-scale_row_ne row x i hr hi ne = sum_ext n _ _ λ k lt.
      ap (λ (y : ℕ). y * t k) (scale_row_lem n a m.size row x i k hr hi lt ∙ rw (ne→== _ _ ne) refl)

  pub image-row_sub_mul_self :
      (dst src x : ℕ)
      → dst < n
      → src < n
      → x < trine_q
      → Congr trine_q
          (image n (row_sub_mul a dst src x n) t dst + x * image n a t src)
          (image n a t dst)
  image-row_sub_mul_self dst src x hd hs hx =
      Congr-of_eq trine_q _ _ (
        ap (λ (y : ℕ). image n (row_sub_mul a dst src x n) t dst + y) (sym (sum-mul_left n x _))
        ∙ sym (sum-add n _ (λ k. x * (entry n a src k * t k))))
      ∙ Congr-sum trine_q n _ (λ k. entry n a dst k * t k) λ k lt. term k lt
    where
      term :
          (k : ℕ)
          → k < n
          → Congr trine_q
              (entry n (row_sub_mul a dst src x n) dst k * t k + x * (entry n a src k * t k))
              (entry n a dst k * t k)
      term k lt =
          let d = entry n a dst k in
          let s = entry n a src k in
          let p = gf_mul x s in
          let hp = gf_mul_lem x s hx (m.reduced (src * n + k)) in
          let e : entry n (row_sub_mul a dst src x n) dst k ≡ gf_sub d p =
            row_sub_mul_lem n a m.size dst src x dst k hd hs hd lt ∙ rw (eq→== dst dst refl) refl in
          let restored : Congr trine_q (gf_sub d p + x * s) d =
            Congr-add trine_q (gf_sub d p) (gf_sub d p) (x * s) p refl
              (sym (Congr-of_eq trine_q p (x * s % trine_q) hp ∙ Congr-mod trine_q (x * s)))
            ∙ omega (arith, gf_sub_lem d p (m.reduced (dst * n + k)) (omega (arith, hp))) in
          Congr-of_eq trine_q _ ((gf_sub d p + x * s) * t k)
            (ap (λ (y : ℕ). y * t k + x * (s * t k)) e ∙ grind arith)
          ∙ Congr-mul trine_q (gf_sub d p + x * s) d (t k) (t k) restored refl

  pub image-row_sub_mul_ne :
      (dst src x i : ℕ)
      → dst < n
      → src < n
      → i < n
      → i ≢ dst
      → image n (row_sub_mul a dst src x n) t i ≡ image n a t i
  image-row_sub_mul_ne dst src x i hd hs hi ne = sum_ext n _ _ λ k lt.
      ap (λ (y : ℕ). y * t k)
        (row_sub_mul_lem n a m.size dst src x i k hd hs hi lt ∙ rw (ne→== _ _ ne) refl)
