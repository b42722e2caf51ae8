-- ===== src/MiddleProxy/Registry/Laws.antt =====
-- What each call does to the two tables that tie connections to writers.
use v3mtp.Prelude.{
  ℕ, ◌≡◌, refl, Bool, true, false, ◌&&◌, ◌||◌, List, [], ◌∷◌, Option, none, some, arith, nat_eq,
  ◌==◌, if◌then◌else◌, Option-cases, inl, inr,
}
use v3mtp.Prelude.Maps
use v3mtp.MiddleProxy.Registry.{
  ConnRegistry, unregister, bind_writer, writer_lost, unbind_all, conns_of, forget_conn,
  bound_conns,
}

module _ (Tx WriterTx Meta : Type 0) where
  abbrev Registry : Type 0
  Registry = ConnRegistry Tx WriterTx Meta

  abbrev pub writer_of : Registry → ℕ → Option ℕ
  writer_of r c = Maps.get c r.writer_for_conn

  abbrev of : Registry → ℕ → List ℕ
  of = conns_of Tx WriterTx Meta

  abbrev conns_in : List (ℕ × List ℕ) → ℕ → List ℕ
  conns_in table w = elim (Maps.get w table) [ none ↦ [] | some conns ↦ conns ]

  conns_of-forget :
      (id v w : ℕ) (table : List (ℕ × List ℕ))
      → conns_in (forget_conn Tx WriterTx Meta id v table) w
        ≡ (if v == w then Maps.delete id (conns_in table w) else conns_in table w)
  unfolding Maps.delete
  conns_of-forget id v w table = elim (Option-cases (Maps.get v table)) [
    | inl missing ↦ rw (missing, forget_conn) (ground (arith, missing))
    | inr (conns, found) ↦
        rw (found, forget_conn)
          (ground (arith, found, Maps.get-insert w v (Maps.delete id conns) table))
  ]

  pub writer_of-unregister :
      (id c : ℕ) (r : Registry)
      → writer_of (unregister Tx WriterTx Meta id r).1 c ≡ (if id == c then none else writer_of r c)
  unfolding unregister
  writer_of-unregister id c r = ground (arith, Maps.get-remove c id r.writer_for_conn)

  pub conns_of-unregister :
      (id w : ℕ) (r : Registry)
      → of (unregister Tx WriterTx Meta id r).1 w ≡ elim (writer_of r id) [
        | none ↦ of r w
        | some v ↦ if v == w then Maps.delete id (of r w) else of r w
      ]
  unfolding unregister Maps.delete
  conns_of-unregister id w r = elim (Option-cases (writer_of r id)) [
    | inl unbound ↦ rw (unbound, unregister)
    | inr (v, bound) ↦ rw (bound, unregister) (conns_of-forget id v w r.conns_for_writer)
  ]

  pub writers-unregister :
      (id : ℕ) (r : Registry) → (unregister Tx WriterTx Meta id r).1.writers ≡ r.writers
  unfolding unregister
  writers-unregister id r = elim (Option-cases (writer_of r id)) [
    | inl unbound ↦ rw (unbound, unregister)
    | inr (v, bound) ↦ rw (bound, unregister)
  ]

  pub writer_of-bind_writer :
      (conn writer c : ℕ) (tx : WriterTx) (m : Meta) (r : Registry)
      → writer_of (bind_writer Tx WriterTx Meta conn writer tx m r) c
        ≡ (if conn == c then some writer else writer_of r c)
  unfolding bind_writer
  writer_of-bind_writer conn writer c tx m r =
      ground (arith, Maps.get-insert c conn writer r.writer_for_conn)

  pub conns_of-bind_writer :
      (conn writer w : ℕ) (tx : WriterTx) (m : Meta) (r : Registry)
      → of (bind_writer Tx WriterTx Meta conn writer tx m r) w
        ≡ (if writer == w then Maps.put conn (of r w) else of r w)
  unfolding bind_writer
  conns_of-bind_writer conn writer w tx m r =
      ground (arith, Maps.get-insert w writer (Maps.put conn (of r writer)) r.conns_for_writer)

  get-unbind_all :
      (conns : List ℕ) (table : List (ℕ × ℕ)) (c : ℕ)
      → Maps.get c (unbind_all Tx WriterTx Meta conns table)
        ≡ (if Maps.contains c conns then none else Maps.get c table)
  unfolding unbind_all Maps.contains
  get-unbind_all [] table c = refl
  get-unbind_all (x ∷ conns) table c =
      ground (arith, get-unbind_all conns (Maps.remove x table) c, Maps.get-remove c x table)

  pub writer_of-writer_lost :
      (w c : ℕ) (r : Registry)
      → writer_of (writer_lost Tx WriterTx Meta w r).1 c
        ≡ (if Maps.contains c (of r w) then none else writer_of r c)
  unfolding writer_lost
  writer_of-writer_lost w c r = get-unbind_all (of r w) r.writer_for_conn c

  pub conns_of-writer_lost :
      (w v : ℕ) (r : Registry)
      → of (writer_lost Tx WriterTx Meta w r).1 v ≡ (if w == v then [] else of r v)
  unfolding writer_lost
  conns_of-writer_lost w v r = ground (arith, Maps.get-remove v w r.conns_for_writer)

-- The pairs that `writer_lost` returns: one for each connection of the writer that has meta data.
unfoldable pub has_conn : {Meta : Type 0} → ℕ → List (ℕ × Meta) → Bool
has_conn c [] = false
has_conn c ((d, m) ∷ bound) = (d == c) || has_conn c bound

abbrev pub is_some {ℓ} : {A : Type ℓ} → Option A → Bool
is_some none = false
is_some (some a) = true

module _ (Tx WriterTx Meta : Type 0) where
  pub has_conn-bound_conns :
      (c : ℕ) (conns : List ℕ) (meta : List (ℕ × Meta))
      → has_conn c (bound_conns Tx WriterTx Meta conns meta)
        ≡ (Maps.contains c conns && is_some (Maps.get c meta))
  unfolding has_conn bound_conns Maps.contains
  has_conn-bound_conns c [] meta = refl
  has_conn-bound_conns c (d ∷ conns) meta = elim (Option-cases (Maps.get d meta)) [
    | inl missing ↦
        rw (missing, bound_conns) (ground (arith, missing, has_conn-bound_conns c conns meta))
    | inr (m, found) ↦
        rw (found, bound_conns) (ground (arith, found, has_conn-bound_conns c conns meta))
  ]
