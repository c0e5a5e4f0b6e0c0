-- ===== src/Multiplex/Select/Rounds.antt =====
-- `init_server` and `start_server` of 8.6/selectServer.2/SelectServer.hpp: what is waited on, and the table
-- of descriptors for as long as the server runs.
use mathlib.Core.Bool.{true≢false}
use mathlib.Core.Option.{none-ne-some, some-injective}
use my_linux.Base.{
  ==_iff, ℕ, zero, suc, ◌<◌, ◌≤◌, ◌≡◌, refl, ap, sym, subst, ◌∙◌, inl, inr, Bool, true, false, ◌&&◌,
  Option, none, some, List, [], ◌∷◌, ltb, lt→ltb, if◌then◌else◌, map, get_elem?, replicate,
  length-set, length-replicate, arith, Option-cases,
}
use my_linux.Multiplex.{Accepted, Received, fd_at, FdSet, put, put_self, put_ne, eq_or_ne}
use my_linux.Multiplex.Select.{
  Slot, Server, free_slot, fd_size, reads, writes, init_server, add_listensock, add_if, fill_sets,
  Selected, timeout, failed, ready, round, rounds, start_server, handler_event,
}
use my_linux.Multiplex.Select.Slots.{Fits}
use my_linux.Multiplex.Places.{fd_at-map}
use my_linux.Multiplex.Select.Services.{IsSound, Ends, handler_event-Ends}

add_if-some :
    (b : Bool) (fd : ℕ) (s : FdSet)
    → fd < fd_size
    → (t : FdSet) × (add_if b fd s ≡ some t)
      × ((f : ℕ) → s f ≡ true → t f ≡ true)
      × (b ≡ true → t fd ≡ true)
add_if-some false fd s l = (s, refl, λ f e. e, λ e. absurd (true≢false (sym e)))
add_if-some true fd s l =
    rw (lt→ltb fd fd_size l) (put s fd true, refl, λ f e. grows f e, λ e. put_self s fd true)
  where
    grows : (f : ℕ) → s f ≡ true → put s fd true f ≡ true
    grows f e = elim (eq_or_ne f fd) [
      | inl p ↦ ap (put s fd true) p ∙ put_self s fd true
      | inr p ↦ put_ne s fd f true p ∙ e
    ]

-- Every client of an array, with its descriptor.
abbrev Every : List Slot → (Slot → ℕ → Type 0) → Type 0
Every xs P = (i fd : ℕ) (x : Slot) → get_elem? xs i ≡ some x → x.fd ≡ some fd → P x fd

every_cons :
    (y : Slot) (xs : List Slot) (P : Slot → ℕ → Type 0)
    → ((fd : ℕ) → y.fd ≡ some fd → P y fd)
    → Every xs P
    → Every (y ∷ xs) P
every_cons y xs P h k zero fd x e f =
    let q = some-injective y x e in subst (λ z. P z fd) q (h fd (ap (λ z. z.fd) q ∙ f))
every_cons y xs P h k (suc i) fd x e f = k i fd x e f

every_tail : (y : Slot) (xs : List Slot) (P : Slot → ℕ → Type 0) → Every (y ∷ xs) P → Every xs P
every_tail y xs P h i fd x e f = h (suc i) fd x e f

-- What is filled in: the sets and the greatest descriptor grow, and hold every place looked at.
record Fills (xs : List Slot) (r w : FdSet) (m : ℕ) : Type 0 where
  rdfds : FdSet
  wtfds : FdSet
  maxfd : ℕ
  filled : fill_sets xs r w m ≡ some (rdfds, wtfds, maxfd)
  keeps_r : (f : ℕ) → r f ≡ true → rdfds f ≡ true
  keeps_w : (f : ℕ) → w f ≡ true → wtfds f ≡ true
  keeps_m : m ≤ maxfd
  holds_r : Every xs (λ x fd. reads x.event ≡ true → rdfds fd ≡ true)
  holds_w : Every xs (λ x fd. writes x.event ≡ true → wtfds fd ≡ true)
  holds_m : Every xs (λ x fd. fd ≤ maxfd)

fill_sets-Fills :
    (xs : List Slot) (r w : FdSet) (m : ℕ) → Every xs (λ x fd. fd < fd_size) → Fills xs r w m
unfolding fill_sets
fill_sets-Fills [] r w m small = record {
  rdfds = r;
  wtfds = w;
  maxfd = m;
  filled = refl;
  keeps_r = λ f e. e;
  keeps_w = λ f e. e;
  keeps_m = omega arith;
  holds_r = λ i fd x e f g. absurd (none-ne-some x e);
  holds_w = λ i fd x e f g. absurd (none-ne-some x e);
  holds_m = λ i fd x e f. absurd (none-ne-some x e);
}
fill_sets-Fills (y ∷ xs) r w m small = elim (Option-cases y.fd) [
  | inl e ↦
      let k = fill_sets-Fills xs r w m (every_tail y xs _ small) in
      record {
        rdfds = k.rdfds;
        wtfds = k.wtfds;
        maxfd = k.maxfd;
        filled = rw (fill_sets, e) k.filled;
        keeps_r = k.keeps_r;
        keeps_w = k.keeps_w;
        keeps_m = k.keeps_m;
        holds_r = every_cons y xs _ (λ fd f. absurd (none-ne-some fd (sym e ∙ f))) k.holds_r;
        holds_w = every_cons y xs _ (λ fd f. absurd (none-ne-some fd (sym e ∙ f))) k.holds_w;
        holds_m = every_cons y xs _ (λ fd f. absurd (none-ne-some fd (sym e ∙ f))) k.holds_m;
      }
  | inr (g, e) ↦
      let (t, a, b, c) = add_if-some (reads y.event) g r (small 0 g y refl e) in
      let (u, p, q, v) = add_if-some (writes y.event) g w (small 0 g y refl e) in
      let k = fill_sets-Fills xs t u (if ltb m g then g else m) (every_tail y xs _ small) in
      record {
        rdfds = k.rdfds;
        wtfds = k.wtfds;
        maxfd = k.maxfd;
        filled = rw (fill_sets, e, a, p) k.filled;
        keeps_r = λ f z. k.keeps_r f (b f z);
        keeps_w = λ f z. k.keeps_w f (q f z);
        keeps_m = omega (arith, k.keeps_m, max_le m g);
        holds_r = every_cons y xs _ (λ fd f z. at k.rdfds e f (k.keeps_r g (c z))) k.holds_r;
        holds_w = every_cons y xs _ (λ fd f z. at k.wtfds e f (k.keeps_w g (v z))) k.holds_w;
        holds_m =
            every_cons y xs _
              (λ fd f. omega (arith, k.keeps_m, max_le m g, some-injective g fd (sym e ∙ f)))
              k.holds_m;
      }
]
  where
    max_le : (m g : ℕ) → (m ≤ (if ltb m g then g else m)) × (g ≤ (if ltb m g then g else m))
    max_le m g = (ground arith, ground arith)

    at : (s : FdSet) {g fd : ℕ} → y.fd ≡ some g → y.fd ≡ some fd → s g ≡ true → s fd ≡ true
    at s {g} {fd} e f z = ap s (sym (some-injective g fd (sym e ∙ f))) ∙ z

-- At the start only the first place is taken.
free_places : (n i : ℕ) → fd_at (map (λ x. x.fd) (replicate n free_slot)) i ≡ none
free_places zero i = refl
free_places (suc n) zero = refl
free_places (suc n) (suc i) = free_places n i

pub started-IsSound :
    (listen : ℕ) (accepts : List Accepted) (recvs : List Received)
    → listen < fd_size
    → Fits accepts
    → IsSound (add_listensock (init_server listen accepts recvs))
unfolding add_listensock init_server
started-IsSound listen accepts recvs l fits = record {
  table = record {
    first = refl;
    unique = λ i j f a b. only i f a ∙ sym (only j f b);
    is_open = λ i f a.
        (==_iff f listen).1
          (sym (some-injective listen f (ap (fd_at column) (sym (only i f a)) ∙ a)));
    found = λ f e. (0, ap some (sym ((==_iff f listen).0 e)));
  };
  size =
      length-set (replicate fd_size free_slot) 0 (record free_slot { fd = some listen; event = 1 })
      ∙ length-replicate fd_size free_slot;
  small = λ f e. omega (arith, l, (==_iff f listen).0 e);
  fits = fits;
}
  where
    column : List (Option ℕ)
    column = some listen ∷ map (λ x. x.fd) (replicate 1023 free_slot)

    only : (i f : ℕ) → fd_at column i ≡ some f → i ≡ 0
    only zero f e = refl
    only (suc i) f e = absurd (none-ne-some f (sym (free_places 1023 i) ∙ e))

module _ (s : Server) (h : IsSound s) where
  small_slots : Every s.fd_array (λ x fd. fd < fd_size)
  small_slots i fd x e f =
      h.small fd (h.table.is_open i fd (fd_at-map (λ x. x.fd) s.fd_array i x e ∙ f))

  round-Ends : (result : Selected) → Ends (round s result)
  unfolding round
  round-Ends result =
      let k = fill_sets-Fills s.fd_array (λ f. false) (λ f. false) s.listensock small_slots in
      rw (round, k.filled) (after k.rdfds k.wtfds result)
    where
      after :
          (rdfds wtfds : FdSet) (out : Selected)
          → Ends (elim out as (λ _. Option Server) [
            | timeout ↦ some s
            | failed ↦ some s
            | ready r w ↦ handler_event fd_size 0 s (λ f. rdfds f && r f) (λ f. wtfds f && w f)
          ])
      after rdfds wtfds timeout = (s, refl, h)
      after rdfds wtfds failed = (s, refl, h)
      after rdfds wtfds (ready r w) = handler_event-Ends fd_size 0 s _ _ (omega arith) h

rounds-Ends : (s : Server) (results : List Selected) → IsSound s → Ends (rounds s results)
unfolding rounds
rounds-Ends s [] h = (s, refl, h)
rounds-Ends s (result ∷ results) h =
    let (t, e, k) = round-Ends s h result in rw (rounds, e) (rounds-Ends t results k)

-- From a listening socket below FD_SETSIZE and with clients whose descriptors are below it too, whatever
-- accept, recv and select return and in whatever order, the server never writes outside a set or
-- its buffer, and at every moment between two rounds the array holds exactly the open descriptors, each
-- once, the listening socket first: none leaks and none is used after its close.
pub start_server-Ends :
    (listen : ℕ) (accepts : List Accepted) (recvs : List Received) (results : List Selected)
    → listen < fd_size
    → Fits accepts
    → (t : Server) × (start_server (init_server listen accepts recvs) results ≡ some t) × IsSound t
unfolding start_server
start_server-Ends listen accepts recvs results l fits =
    rounds-Ends _ results (started-IsSound listen accepts recvs l fits)

-- In a server whose array holds its open descriptors, all below FD_SETSIZE, what select waits on is
-- defined; it has every descriptor of the array that is to be read, every one that is to be written,
-- and a greatest descriptor that is not exceeded.
pub fill_sets_waits :
    (s : Server)
    → IsSound s
    → (rdfds wtfds : FdSet) × (maxfd : ℕ) × (fill_sets s.fd_array
          (λ f. false)
          (λ f. false)
          s.listensock
        ≡ some (rdfds, wtfds, maxfd))
      × ((i fd : ℕ) (x : Slot)
          → get_elem? s.fd_array i ≡ some x
          → x.fd ≡ some fd
          → (fd ≤ maxfd)
            × (reads x.event ≡ true → rdfds fd ≡ true)
            × (writes x.event ≡ true → wtfds fd ≡ true))
fill_sets_waits s h =
    let k = fill_sets-Fills s.fd_array (λ f. false) (λ f. false) s.listensock (small_slots s h) in
    (
      k.rdfds,
      k.wtfds,
      k.maxfd,
      k.filled,
      λ i fd x e f. (k.holds_m i fd x e f, k.holds_r i fd x e f, k.holds_w i fd x e f),
    )
