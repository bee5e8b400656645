-- ===== src/Docker/Attempts.antt =====
-- A query gives the first answer that comes in time.
use chowkidar.Prelude.{
  ℕ, zero, suc, ◌+◌, ◌≤◌, ◌<◌, ◌≡◌, refl, subst, Bool, false, Option, none, some, arith, pos_part,
}
use Prim.Native.Nat.{max}
use chowkidar.Model.{Config}
use chowkidar.Docker.{attempts, retry_docker}

here : (n : ℕ) → n + 0 ≡ n
here n = omega arith

shift : (n i : ℕ) → n + suc i ≡ suc n + i
shift n i = omega arith

module _ {ℓ} {A : Type ℓ} (expired : ℕ → Bool) (answer : ℕ → Option A) where
  attempts_first :
      (n left k : ℕ) (x : A)
      → k < left
      → ((i : ℕ) → i ≤ k → expired (n + i) ≡ false)
      → ((i : ℕ) → i < k → answer (n + i) ≡ none)
      → answer (n + k) ≡ some x
      → attempts expired answer n left ≡ some x
  unfolding attempts
  attempts_first n zero k x h t f e = absurd (omega (arith, h))
  attempts_first n (suc left) zero x h t f e =
      go (subst (λ m. expired m ≡ false) (here n) (t 0 (omega arith)))
        (subst (λ m. answer m ≡ some x) (here n) e)
    where
      go : expired n ≡ false → answer n ≡ some x → attempts expired answer n (suc left) ≡ some x
      go u v = rw (u, v) refl
  attempts_first n (suc left) (suc k) x h t f e =
      go (subst (λ m. expired m ≡ false) (here n) (t 0 (omega arith)))
        (subst (λ m. answer m ≡ none) (here n) (f 0 (omega arith)))
        (attempts_first (suc n) left k x (omega (arith, h))
          (λ i p. subst (λ m. expired m ≡ false) (shift n i) (t (suc i) (omega (arith, p))))
          (λ i p. subst (λ m. answer m ≡ none) (shift n i) (f (suc i) (omega (arith, p))))
          (subst (λ m. answer m ≡ some x) (shift n k) e))
    where
      go :
          expired n ≡ false
          → answer n ≡ none
          → attempts expired answer (suc n) left ≡ some x
          → attempts expired answer n (suc left) ≡ some x
      go u v w = rw (u, v) w

  -- A query whose first k attempts fail and whose next one succeeds gives that answer, if the
  -- context has not ended by then and k is below the number of attempts in the settings, or below 1.
  pub retry_docker_first :
      (cfg : Config) (k : ℕ) (x : A)
      → k < max (pos_part cfg.docker_client_retry_count) 1
      → ((i : ℕ) → i ≤ k → expired (1 + i) ≡ false)
      → ((i : ℕ) → i < k → answer (1 + i) ≡ none)
      → answer (1 + k) ≡ some x
      → retry_docker cfg expired answer ≡ some x
  unfolding retry_docker
  retry_docker_first cfg k x h t f e = attempts_first 1 _ k x h t f e
