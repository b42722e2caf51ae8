-- ===== src/MiddleProxy/Registry/Exact.antt =====
-- Where a connection is bound only while it is unbound, the two tables are inverse to each other,
-- and the loss of a writer frees exactly its connections.
use v3mtp.Prelude.{
  ℕ, ◌≡◌, refl, Bool, true, false, List, Option, none, some, arith, nat_eq, ◌==◌, if◌then◌else◌,
  ◌&&◌,
}
use v3mtp.Prelude.Maps
use v3mtp.MiddleProxy.Registry.{
  ConnRegistry, new, register, unregister, bind_writer, writer_lost, conns_of,
}
use v3mtp.MiddleProxy.Registry.Laws.{
  writer_of, writer_of-unregister, conns_of-unregister, writer_of-bind_writer, conns_of-bind_writer,
  writer_of-writer_lost, conns_of-writer_lost, is_some, has_conn, has_conn-bound_conns,
}

module _ (Tx WriterTx Meta : Type 0) where
  abbrev Registry : Type 0
  Registry = ConnRegistry Tx WriterTx Meta

  abbrev of : Registry → ℕ → List ℕ
  of = conns_of Tx WriterTx Meta

  abbrev to : Registry → ℕ → Option ℕ
  to = writer_of Tx WriterTx Meta

  -- One call; a binding is made for an unbound connection, as `send_proxy_req` makes it once it
  -- has found no writer for the connection.
  pub data Step : Registry → Registry → Type 0 where
    registers : (tx : Tx) (r : Registry) → Step r (register Tx WriterTx Meta tx r).1
    unregisters : (id : ℕ) (r : Registry) → Step r (unregister Tx WriterTx Meta id r).1
    binds :
        (conn writer : ℕ) (tx : WriterTx) (m : Meta) (r : Registry)
        → to r conn ≡ none
        → Step r (bind_writer Tx WriterTx Meta conn writer tx m r)
    loses : (writer : ℕ) (r : Registry) → Step r (writer_lost Tx WriterTx Meta writer r).1

  pub data Reach (r : Registry) : Registry → Type 0 where
    here : Reach r r
    next : {s t : Registry} → Reach r s → Step s t → Reach r t

  pub record IsInverse (r : Registry) : Type 0 where
    pub listed : (c w : ℕ) → to r c ≡ some w → Maps.contains c (of r w) ≡ true
    pub owned : (c w : ℕ) → Maps.contains c (of r w) ≡ true → to r c ≡ some w

  unregister-IsInverse :
      (id : ℕ) (r : Registry) → IsInverse r → IsInverse (unregister Tx WriterTx Meta id r).1
  unregister-IsInverse id r v = record {
    listed = λ c w e. ground (
      arith,
      writer_of-unregister Tx WriterTx Meta id c r,
      conns_of-unregister Tx WriterTx Meta id w r,
      Maps.contains-delete c id (of r w),
      v.listed c w,
    );
    owned = λ c w e. ground (
      arith,
      writer_of-unregister Tx WriterTx Meta id c r,
      conns_of-unregister Tx WriterTx Meta id w r,
      Maps.contains-delete c id (of r w),
      v.owned c w,
    );
  }

  bind_writer-IsInverse :
      (conn writer : ℕ) (tx : WriterTx) (m : Meta) (r : Registry)
      → to r conn ≡ none
      → IsInverse r
      → IsInverse (bind_writer Tx WriterTx Meta conn writer tx m r)
  bind_writer-IsInverse conn writer tx m r free v = record {
    listed = λ c w e. ground (
      arith,
      writer_of-bind_writer Tx WriterTx Meta conn writer c tx m r,
      conns_of-bind_writer Tx WriterTx Meta conn writer w tx m r,
      Maps.contains-put c conn (of r w),
      v.listed c w,
    );
    owned = λ c w e. ground (
      arith,
      writer_of-bind_writer Tx WriterTx Meta conn writer c tx m r,
      conns_of-bind_writer Tx WriterTx Meta conn writer w tx m r,
      Maps.contains-put c conn (of r w),
      v.owned c w,
    );
  }

  writer_lost-IsInverse :
      (writer : ℕ) (r : Registry)
      → IsInverse r
      → IsInverse (writer_lost Tx WriterTx Meta writer r).1
  unfolding Maps.contains
  writer_lost-IsInverse writer r v = record {
    listed = λ c w e. ground (
      arith,
      writer_of-writer_lost Tx WriterTx Meta writer c r,
      conns_of-writer_lost Tx WriterTx Meta writer w r,
      v.listed c w,
      v.listed c writer,
    );
    owned = λ c w e. ground (
      arith,
      writer_of-writer_lost Tx WriterTx Meta writer c r,
      conns_of-writer_lost Tx WriterTx Meta writer w r,
      v.owned c w,
      v.owned c writer,
    );
  }

  Step-IsInverse : {r s : Registry} → Step r s → IsInverse r → IsInverse s
  unfolding register
  Step-IsInverse (registers tx r) v = record { listed = v.listed; owned = v.owned }
  Step-IsInverse (unregisters id r) v = unregister-IsInverse id r v
  Step-IsInverse (binds conn writer tx m r free) v = bind_writer-IsInverse conn writer tx m r free v
  Step-IsInverse (loses writer r) v = writer_lost-IsInverse writer r v

  Reach-IsInverse : {r s : Registry} → Reach r s → IsInverse r → IsInverse s
  Reach-IsInverse here v = v
  Reach-IsInverse (next path last) v = Step-IsInverse last (Reach-IsInverse path v)

  -- In every registry that calls reach from a new one, where a writer is bound only to a connection
  -- without one, a connection is in the set of a writer exactly when the writer is its own.
  pub Reach-new-IsInverse :
      (start : ℕ) (r : Registry) → Reach (new Tx WriterTx Meta start) r → IsInverse r
  unfolding new Maps.get Maps.contains
  Reach-new-IsInverse start r path =
      Reach-IsInverse path (record { listed = λ c w e. cc; owned = λ c w e. cc })

  abbrev pub is_bound_to : Option ℕ → ℕ → Bool
  is_bound_to none writer = false
  is_bound_to (some w) writer = w == writer

  -- The set of a writer, asked for a connection.
  contains-bound :
      (writer c : ℕ) (r : Registry)
      → IsInverse r
      → Maps.contains c (of r writer) ≡ is_bound_to (to r c) writer
  contains-bound writer c r v = by_cases (to r c) refl
    where
      by_cases : (o : Option ℕ) → to r c ≡ o → Maps.contains c (of r writer) ≡ is_bound_to o writer
      by_cases none e = ground (arith, e, v.owned c writer)
      by_cases (some w) e = ground (arith, e, v.owned c writer, v.listed c writer)

  -- In every registry that calls reach from a new one, where a writer is bound only to a connection
  -- without one, the loss of a writer unbinds the connections that were bound to it and no other,
  -- and returns those of them that have meta data.
  pub writer_lost_frees :
      (start writer c : ℕ) (r : Registry)
      → Reach (new Tx WriterTx Meta start) r
      → let lost = writer_lost Tx WriterTx Meta writer r in
        let mine = is_bound_to (to r c) writer in
        (to lost.1 c ≡ (if mine then none else to r c))
        × (has_conn c lost.0 ≡ (mine && is_some (Maps.get c r.meta)))
  writer_lost_frees start writer c r path =
      let same = contains-bound writer c r (Reach-new-IsInverse start r path) in
      (
        rw (writer_of-writer_lost Tx WriterTx Meta writer c r, same),
        unfold writer_lost in
            rw (has_conn-bound_conns Tx WriterTx Meta c (of r writer) r.meta, same),
      )
