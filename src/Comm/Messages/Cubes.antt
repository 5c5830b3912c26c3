-- ===== src/Comm/Messages/Cubes.antt =====
-- How a cube gets from rank 0 to the local workers.
use mathlib.Core.List.{append_assoc}
use dpainless.Prelude.{
  ℕ, suc, ◌+◌, ◌≡◌, refl, ap, sym, length-append, ◌∙◌, List, [], ◌∷◌, ◌++◌, some, ℤ, pos, false,
  map, length, if◌then◌else◌, get_elem?, arith,
}
use dpainless.Clauses.Exchange.{Heap, pure}
use dpainless.Clauses.Buffer.{BufferApi}
use dpainless.Comm.Messages.{message, cube_tag, cube_buf, read_memory, send_assumption, Process}
use dpainless.Comm.Messages.Ends.{arrives}
use dpainless.Comm.Messages.Receive.{
  ending, dispatch_all, read_lits, read_cube, receive_cube, receive_one,
}
use dpainless.Working.Strategy.{solve}
use dpainless.Working.Portfolio.{Portfolio, solve_cube}

get_elem?-length :
    (xs : List ℤ) (y : ℤ) (ys : List ℤ) → get_elem? (xs ++ y ∷ ys) (length xs) ≡ some y
get_elem?-length [] y ys = refl
get_elem?-length (x ∷ xs) y ys = get_elem?-length xs y ys

read_lits-step :
    (rounds i : ℕ) (buf : List ℤ) (x : ℤ) (xs : List ℤ)
    → get_elem? buf i ≡ some x
    → read_lits rounds (i + 1) buf ≡ some xs
    → read_lits (suc rounds) i buf ≡ some (x ∷ xs)
unfolding read_lits
read_lits-step rounds i buf x xs e f = rw (e, read_lits) (rw f refl)

-- The loop reads what stands behind the numbers that it has passed.
read_lits-rest :
    (xs ys : List ℤ) (i : ℕ) → i ≡ length xs → read_lits (length ys) i (xs ++ ys) ≡ some ys
unfolding read_lits
read_lits-rest xs [] i e = refl
read_lits-rest xs (y ∷ ys) i e =
    read_lits-step (length ys) i (xs ++ y ∷ ys) y ys
      (ap (get_elem? (xs ++ y ∷ ys)) e ∙ get_elem?-length xs y ys)
      (ap (read_lits (length ys) (i + 1)) (sym (append_assoc xs (y ∷ []) ys))
        ∙ read_lits-rest (xs ++ y ∷ []) ys (i + 1) (omega (arith, e, length-append xs (y ∷ []))))

-- The buffer that `sendAssumption` fills is read back as its cube.
read_cube-cube_buf : (cube : List ℤ) → read_cube (cube_buf cube) ≡ some cube
unfolding read_cube
read_cube-cube_buf [] = refl
read_cube-cube_buf (x ∷ xs) = read_lits-rest (pos (length (x ∷ xs)) ∷ []) (x ∷ xs) 1 refl

pub send_assumption-blind :
    (stack : ℕ → ℤ) (cube other : List ℤ) (target : ℕ)
    → length cube ≡ length other
    → (read_cube (cube_buf cube) ≡ some cube)
      × (send_assumption stack cube target ≡ send_assumption stack other target)
unfolding send_assumption
send_assumption-blind stack cube other target e =
    (read_cube-cube_buf cube, ap (λ n. message target cube_tag (read_memory stack (suc n) 0)) e)

dispatch_all-solve :
    (stack : ℕ → ℤ) (cube : List ℤ) (ds : List ℕ)
    → dispatch_all stack (map (λ d. solve d cube) ds) ≡ map (λ d. send_assumption stack cube d) ds
unfolding dispatch_all
dispatch_all-solve stack cube [] = refl
dispatch_all-solve stack cube (d ∷ ds) =
    ap (λ l. send_assumption stack cube d ∷ l) (dispatch_all-solve stack cube ds)

module _ {B : Type 0} (api : BufferApi B) (stack : ℕ → ℤ) where
  -- The distributed portfolio starts with the empty cube. Each of its dispatchers sends one message,
  -- and a process that runs and receives it starts all slaves of its local worker on the empty cube.
  pub solve_cube-starts :
      (d : ℕ) (w : Portfolio) (q : Process api) (h : Heap)
      → ending api q ≡ false
      → (dispatch_all stack (solve_cube [] w).1 ≡ map (send_assumption stack []) w.slaves)
        × (receive_one api stack (arrives 0 (send_assumption stack [] d)) q h
            ≡ some ((q, [], map (λ v. solve v []) q.slaves), h))
  unfolding solve_cube send_assumption receive_one receive_cube
  solve_cube-starts d w q h e = (
    dispatch_all-solve stack [] w.slaves,
    ap (λ b. (if b then pure (q, [], []) else receive_cube api stack (stack 0 ∷ []) q) h) e,
  )
