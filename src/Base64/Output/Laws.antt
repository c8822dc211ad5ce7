-- ===== src/Base64/Output/Laws.antt =====
-- What stores do to the output memory.
use mathlib.Core.List.{map-append}
use native.Mathlib.Nat.{add-zero, add_assoc}
use hashcodecs_rs.Common.{
  length-map, drop-drop, take_all, drop_all, ℕ, ◌+◌, ◌≤◌, ◌≡◌, refl, ◌∙◌, sym, Option, none, some,
  List, [], ◌∷◌, ◌++◌, map, arith, length, take, drop, replicate, length-append, length-take,
  length-drop, length-replicate, take-append, drop-append, append_assoc, append-nil,
  take-append-drop, length-map, drop-drop, take_all, drop_all,
}
use hashcodecs_rs.Base64.Output.{
  Memory, ok, Write, ◌>>◌, ◌>>=◌, stored, write, uninitialized, initialized,
  assume_output_initialized,
}

-- The cells up to the end of a store.
front : ℕ → List ℕ → Memory → Memory
front k bytes mem = take k mem ++ map some bytes

length-front :
    (k : ℕ) (bytes : List ℕ) (mem : Memory)
    → k ≤ length mem
    → length (front k bytes mem) ≡ k + length bytes
unfolding front
length-front k bytes mem h = omega (
  arith,
  length-append (take k mem) (map some bytes),
  length-take k mem,
  length-map {0, 0} (λ (b : ℕ). some b) bytes,
)

stored-front :
    (k : ℕ) (bytes : List ℕ) (mem : Memory)
    → stored k bytes mem ≡ front k bytes mem ++ drop (k + length bytes) mem
unfolding front
stored-front k bytes mem = sym (append_assoc (take k mem) _ _)

pub length-stored :
    (k : ℕ) (bytes : List ℕ) (mem : Memory)
    → k + length bytes ≤ length mem
    → length (stored k bytes mem) ≡ length mem
length-stored k bytes mem h = rw (stored-front k bytes mem) (
    omega (
      arith,
      length-append (front k bytes mem) (drop (k + length bytes) mem),
      length-front k bytes mem,
      length-drop (k + length bytes) mem,
    ))

-- Two stores to adjacent ranges are one store.
pub stored-stored :
    (k : ℕ) (xs ys : List ℕ) (mem : Memory)
    → k + length xs ≤ length mem
    → stored (k + length xs) ys (stored k xs mem) ≡ stored k (xs ++ ys) mem
stored-stored k xs ys mem h =
    let e : length (front k xs mem) ≡ k + length xs = length-front k xs mem (omega arith) in
    rw
      (
        stored-front k xs mem,
        take-append (front k xs mem) (drop (k + length xs) mem) (k + length xs) e,
        ← drop-drop (length ys) (k + length xs) (front k xs mem ++ drop (k + length xs) mem),
        drop-append (front k xs mem) (drop (k + length xs) mem) (k + length xs) e,
        drop-drop (length ys) (k + length xs) mem,
        map-append,
        length-append xs ys,
      )
      (unfold front in simp (append_assoc, add_assoc))

-- A store inside the memory succeeds.
pub write-stored :
    (k : ℕ) (bytes : List ℕ) (mem : Memory)
    → k + length bytes ≤ length mem
    → write k bytes mem ≡ ok tt (stored k bytes mem)
unfolding write
write-stored k bytes mem h = ground arith

pub stored-nil : (k : ℕ) (mem : Memory) → k ≤ length mem → stored k [] mem ≡ mem
stored-nil k mem h = rw add-zero (take-append-drop k mem)

pub initialized-map : (xs : List ℕ) → initialized (map some xs) ≡ some xs
unfolding initialized
initialized-map [] = refl
initialized-map (x ∷ xs) = rw (initialized-map xs)

-- A fresh allocation that is stored full can be taken as a vector.
pub assume_full :
    (xs : List ℕ) (n : ℕ)
    → length xs ≡ n
    → assume_output_initialized (stored 0 xs (uninitialized n)) n ≡ some xs
unfolding assume_output_initialized uninitialized
assume_full xs n e =
    let cells : List (Option ℕ) = map some xs in
    let m : length cells ≡ n = length-map (λ (b : ℕ). some b) xs ∙ e in
    let blank : Option ℕ = none in
    let none_left : drop (0 + length xs) (replicate n blank) ≡ [] =
      drop_all (0 + length xs) (replicate n blank) (omega (arith, length-replicate n blank)) in
    rw (none_left, append-nil) (ground (arith, take_all n cells, initialized-map xs))

-- A store that covers the whole memory.
pub stored_full :
    (bytes : List ℕ) (mem : Memory)
    → length bytes ≡ length mem
    → stored 0 bytes mem ≡ map some bytes
stored_full bytes mem e = rw (drop_all (0 + length bytes) mem (omega arith)) (append-nil _)

-- A fresh allocation that is stored in front of its slack can be taken as a vector.
pub assume_prefix :
    (xs : List ℕ) (n size : ℕ)
    → length xs ≡ n
    → n ≤ size
    → assume_output_initialized (stored 0 xs (uninitialized size)) n ≡ some xs
unfolding assume_output_initialized uninitialized
assume_prefix xs n size e h =
    let cells : List (Option ℕ) = map some xs in
    let m : length cells ≡ n = length-map (λ (b : ℕ). some b) xs ∙ e in
    let blank : Option ℕ = none in
    let rest : Memory = drop (0 + length xs) (replicate size blank) in
    ground (arith, length-append cells rest, take-append cells rest n m, initialized-map xs)

-- What follows an action that succeeds.
pub run :
    {B : Type 0} (m : Write (Unit {0})) (k : Write B) (mem mem' : Memory)
    → m mem ≡ ok tt mem'
    → (m >> k) mem ≡ k mem'
run m k mem mem' e = rw (◌>>◌, ◌>>=◌, e) refl

pub run_value :
    {A B : Type 0} (m : Write A) (k : A → Write B) (a : A) (mem mem' : Memory)
    → m mem ≡ ok a mem'
    → (m >>= k) mem ≡ k a mem'
run_value m k a mem mem' e = rw (◌>>=◌, e) refl
