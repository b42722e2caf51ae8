-- ===== src/MiddleProxy/Registry/Invariant.antt =====
-- The tables agree, through every history of calls.
use v3mtp.Prelude.{ℕ, ◌≡◌, true, List, [], ◌∷◌, Option, some, arith, nat_eq, Option-cases, inl, inr}
use v3mtp.Prelude.Maps
use v3mtp.MiddleProxy.Registry.{
  ConnRegistry, new, register, unregister, bind_writer, writer_lost, conns_of, get_writer,
}
use v3mtp.MiddleProxy.Registry.Laws.{
  writer_of, writer_of-unregister, conns_of-unregister, writers-unregister, writer_of-bind_writer,
  conns_of-bind_writer, writer_of-writer_lost, conns_of-writer_lost, is_some,
}

module _ (Tx WriterTx Meta : Type 0) where
  abbrev Registry : Type 0
  Registry = ConnRegistry Tx WriterTx Meta

  abbrev of : Registry → ℕ → List ℕ
  of = conns_of Tx WriterTx Meta

  abbrev to : Registry → ℕ → Option ℕ
  to = writer_of Tx WriterTx Meta

  -- The calls that change the registry, as one task sees them happen.
  pub data Call : Type 0 where
    registers : Tx → Call
    unregisters : ℕ → Call
    binds : ℕ → ℕ → WriterTx → Meta → Call
    loses : ℕ → Call

  unfoldable pub step : Call → Registry → Registry
  step (registers tx) r = (register Tx WriterTx Meta tx r).1
  step (unregisters id) r = (unregister Tx WriterTx Meta id r).1
  step (binds conn writer tx m) r = bind_writer Tx WriterTx Meta conn writer tx m r
  step (loses writer) r = (writer_lost Tx WriterTx Meta writer r).1

  unfoldable pub run : List Call → Registry → Registry
  run [] r = r
  run (c ∷ cs) r = run cs (step c r)

  -- A bound connection is in the set of its writer, and the sender of that writer is known.
  pub record IsConsistent (r : Registry) : Type 0 where
    pub listed : (c w : ℕ) → to r c ≡ some w → Maps.contains c (of r w) ≡ true
    pub live : (c w : ℕ) → to r c ≡ some w → is_some (Maps.get w r.writers) ≡ true

  unregister-IsConsistent :
      (id : ℕ) (r : Registry) → IsConsistent r → IsConsistent (unregister Tx WriterTx Meta id r).1
  unregister-IsConsistent id r v = record {
    listed = λ c w e. ground (
      arith,
      writer_of-unregister Tx WriterTx Meta id c r,
      conns_of-unregister Tx WriterTx Meta id w r,
      Maps.contains-delete c id (of r w),
      v.listed c w,
    );
    live = λ c w e. ground (
      arith,
      writers-unregister Tx WriterTx Meta id r,
      writer_of-unregister Tx WriterTx Meta id c r,
      v.live c w,
    );
  }

  bind_writer-IsConsistent :
      (conn writer : ℕ) (tx : WriterTx) (m : Meta) (r : Registry)
      → IsConsistent r
      → IsConsistent (bind_writer Tx WriterTx Meta conn writer tx m r)
  bind_writer-IsConsistent conn writer tx m r v = record {
    listed = λ c w e. ground (
      arith,
      writer_of-bind_writer Tx WriterTx Meta conn writer c tx m r,
      conns_of-bind_writer Tx WriterTx Meta conn writer w tx m r,
      Maps.contains-put c conn (of r w),
      v.listed c w,
    );
    live = λ c w e.
        unfold bind_writer in
        ground (
          arith,
          writer_of-bind_writer Tx WriterTx Meta conn writer c tx m r,
          Maps.get-or_insert w writer tx r.writers,
          v.live c w,
        );
  }

  writer_lost-IsConsistent :
      (writer : ℕ) (r : Registry)
      → IsConsistent r
      → IsConsistent (writer_lost Tx WriterTx Meta writer r).1
  writer_lost-IsConsistent writer r v = record {
    listed = λ c w e. ground (
      arith,
      writer_of-writer_lost Tx WriterTx Meta writer c r,
      conns_of-writer_lost Tx WriterTx Meta writer w r,
      v.listed c w,
      v.listed c writer,
    );
    live = λ c w e.
        unfold writer_lost in
        ground (
          arith,
          writer_of-writer_lost Tx WriterTx Meta writer c r,
          Maps.get-remove w writer r.writers,
          v.live c w,
          v.listed c w,
        );
  }

  step-IsConsistent : (c : Call) (r : Registry) → IsConsistent r → IsConsistent (step c r)
  unfolding step register
  step-IsConsistent (registers tx) r v = record { listed = v.listed; live = v.live }
  step-IsConsistent (unregisters id) r v = unregister-IsConsistent id r v
  step-IsConsistent (binds conn writer tx m) r v = bind_writer-IsConsistent conn writer tx m r v
  step-IsConsistent (loses writer) r v = writer_lost-IsConsistent writer r v

  run-IsConsistent : (cs : List Call) (r : Registry) → IsConsistent r → IsConsistent (run cs r)
  unfolding run
  run-IsConsistent [] r v = v
  run-IsConsistent (c ∷ cs) r v = run-IsConsistent cs (step c r) (step-IsConsistent c r v)

  -- After any calls on a new registry, each bound connection is in the set of its writer, and the
  -- sender of that writer is known.
  pub run-new-IsConsistent :
      (start : ℕ) (cs : List Call) → IsConsistent (run cs (new Tx WriterTx Meta start))
  unfolding new Maps.get
  run-new-IsConsistent start cs =
      run-IsConsistent cs _ (record { listed = λ c w e. cc; live = λ c w e. cc })

  get_writer-known :
      (c w : ℕ) (tx : WriterTx) (r : Registry)
      → to r c ≡ some w
      → Maps.get w r.writers ≡ some tx
      → get_writer Tx WriterTx Meta c r ≡ some (w, tx)
  unfolding get_writer
  get_writer-known c w tx r p q = ground arith

  pub get_writer-bound :
      (c w : ℕ) (r : Registry)
      → IsConsistent r
      → to r c ≡ some w
      → (tx : WriterTx) × (get_writer Tx WriterTx Meta c r ≡ some (w, tx))
  get_writer-bound c w r v bound = elim (Option-cases (Maps.get w r.writers)) [
    | inl missing ↦ absurd (ground (arith, missing, v.live c w bound))
    | inr (tx, found) ↦ (tx, get_writer-known c w tx r bound found)
  ]

  abbrev pub after : ℕ → List Call → Registry
  after start cs = run cs (new Tx WriterTx Meta start)

  -- After any calls on a new registry, `get_writer` finds the writer and the sender of every bound
  -- connection.
  pub get_writer-run :
      (start : ℕ) (cs : List Call) (c w : ℕ)
      → to (after start cs) c ≡ some w
      → (tx : WriterTx) × (get_writer Tx WriterTx Meta c (after start cs) ≡ some (w, tx))
  get_writer-run start cs c w bound =
      get_writer-bound c w (after start cs) (run-new-IsConsistent start cs) bound
