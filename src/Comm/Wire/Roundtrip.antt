-- ===== src/Comm/Wire/Roundtrip.antt =====
-- What a process receives, against what the other has sent.
use dpainless.Prelude.{
  ℕ, suc, ◌+◌, ◌≤◌, ◌<◌, ◌≡◌, refl, ap, ap₂, sym, ◌∙◌, List, [], ◌∷◌, ◌++◌, some, ℤ, pos, arith,
  length, get_elem?, lt→ltb, false, All, map,
}
use mathlib.Core.Path.{fun_ext}
use mathlib.Core.List.{append_assoc, append-nil}
use dpainless.Clauses.Exchange.{ClauseExchange, Heap, M, pure, ◌>>=◌}
use dpainless.Clauses.Buffer.{BufferApi}
use dpainless.Comm.Wire.{fill, Inbox, finish_clause, is_zero, receive_from, handle_received_clauses}
use dpainless.Comm.Wire.Layout.{payload, message, fill-fits, At, message-At}

-- A literal is no 0.
abbrev pub NonZero : ℤ → Type 0
NonZero x = is_zero x ≡ false

module _ {B : Type 0} (api : BufferApi B) where
  -- The clauses are received one after the other.
  unfoldable pub receive_all : List (List ℤ) → Inbox api → M (Inbox api)
  receive_all [] box = pure box
  receive_all (ls ∷ rest) box = finish_clause api ls box >>= receive_all rest

  receive-zero :
      (n i : ℕ) (buf tmp : List ℤ) (box : Inbox api) (h : Heap)
      → get_elem? buf i ≡ some (pos 0)
      → receive_from api (suc n) i buf tmp box h
        ≡ (finish_clause api tmp box >>= receive_from api n (i + 1) buf []) h
  unfolding receive_from
  receive-zero n i buf tmp box h e = rw (e, receive_from) refl

  receive-lit :
      (n i : ℕ) (buf tmp : List ℤ) (box : Inbox api) (h : Heap) (x : ℤ)
      → get_elem? buf i ≡ some x
      → NonZero x
      → receive_from api (suc n) i buf tmp box h
        ≡ receive_from api n (i + 1) buf (tmp ++ x ∷ []) box h
  unfolding receive_from
  receive-lit n i buf tmp box h x e z = rw (e, receive_from) (rw (z, receive_from) refl)

  receive_from-none :
      (i : ℕ) (buf : List ℤ) (box : Inbox api)
      → receive_from api 0 i buf [] box ≡ receive_all [] box
  unfolding receive_from receive_all
  receive_from-none i buf box = refl

  receive_from-payload :
      (cs : List ClauseExchange) (ls : List ℤ) (i : ℕ) (buf tmp : List ℤ) (box : Inbox api)
      (h : Heap)
      → All (λ c. All NonZero c.lits) cs
      → All NonZero ls
      → At buf i (ls ++ pos 0 ∷ payload cs)
      → receive_from api (length (ls ++ pos 0 ∷ payload cs)) i buf tmp box h
        ≡ (finish_clause api (tmp ++ ls) box >>= receive_all (map (λ c. c.lits) cs)) h
  unfolding receive_all
  receive_from-payload [] [] i buf tmp box h zs z a =
      receive-zero 0 i buf tmp box h a.0
      ∙ ap₂ (λ t k. (finish_clause api t box >>= k) h) (sym (append-nil tmp))
          (fun_ext λ b. receive_from-none (i + 1) buf b)
  receive_from-payload (c ∷ cs) [] i buf tmp box h zs z a =
      receive-zero (length (payload (c ∷ cs))) i buf tmp box h a.0
      ∙ ap₂ (λ t k. (finish_clause api t box >>= k) h) (sym (append-nil tmp))
          (fun_ext
            λ b. fun_ext λ h'. receive_from-payload cs c.lits (i + 1) buf [] b h' zs.1 zs.0 a.1)
  receive_from-payload cs (x ∷ ls) i buf tmp box h zs z a =
      receive-lit (length (ls ++ pos 0 ∷ payload cs)) i buf tmp box h x a.0 z.0
      ∙ receive_from-payload cs ls (i + 1) buf (tmp ++ x ∷ []) box h zs z.1 a.1
      ∙ ap (λ t. (finish_clause api t box >>= receive_all (map (λ c. c.lits) cs)) h)
          (append_assoc tmp (x ∷ []) ls)

  receive_from-clauses :
      (cs : List ClauseExchange) (buf : List ℤ) (box : Inbox api) (h : Heap)
      → All (λ c. All NonZero c.lits) cs
      → At buf (0 + 1) (payload cs)
      → receive_from api (length (payload cs)) 1 buf [] box h
        ≡ receive_all (map (λ c. c.lits) cs) box h
  unfolding receive_from receive_all
  receive_from-clauses [] buf box h zs a = refl
  receive_from-clauses (c ∷ cs) buf box h zs a =
      receive_from-payload cs c.lits 1 buf [] box h zs.1 zs.0 a

  handle-message :
      (cs : List ClauseExchange) (buf : List ℤ) (size : ℕ) (box : Inbox api) (h : Heap)
      → length (payload cs) < size
      → All (λ c. All NonZero c.lits) cs
      → At buf 0 (pos (length (payload cs)) ∷ payload cs)
      → handle_received_clauses api buf size box h ≡ receive_all (map (λ c. c.lits) cs) box h
  unfolding handle_received_clauses
  handle-message cs buf size box h lt zs a =
      rw (a.0, handle_received_clauses)
        (rw (lt→ltb (length (payload cs)) size lt, handle_received_clauses)
          (receive_from-clauses cs buf box h zs a.1))

  -- If the clauses fit into the buffer and no literal is 0, it is filled without a write out of
  -- bounds, and a process that receives the message takes in the literals of each clause, in the order
  -- in which they were sent: it calls its filter with exactly these, and nothing else.
  pub received-eq-sent :
      (cs : List ClauseExchange) (buf : List ℤ) (box : Inbox api) (h : Heap)
      → 1 + length (payload cs) ≤ length buf
      → All (λ c. All NonZero c.lits) cs
      → (msg : List ℤ) × (fill cs buf ≡ some msg)
        × (handle_received_clauses api msg (length buf) box h
            ≡ receive_all (map (λ c. c.lits) cs) box h)
  received-eq-sent cs buf box h fits zs = (
    message cs buf,
    fill-fits cs buf fits,
    handle-message cs (message cs buf) (length buf) box h (omega arith) zs (message-At cs buf fits),
  )
