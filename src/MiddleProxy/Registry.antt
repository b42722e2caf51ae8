-- ===== src/MiddleProxy/Registry.antt =====
-- src/transport/middle_proxy/registry.rs: which connection goes through which writer. A sender of
-- a `tokio` channel and the meta data of a connection are values of types that the registry
-- only stores. Each method is one step: it holds the write lock throughout.
pub mod Laws
pub mod Invariant
pub mod Exact
pub mod Route
mod Examples
use v3mtp.Prelude.{
  ℕ, ◌+◌, ◌%◌, ◌^◌, Bool, true, false, List, [], ◌∷◌, Option, none, some, is_empty, nat_eq,
}
use v3mtp.Prelude.Maps

module _ (Tx WriterTx Meta : Type 0) where
  pub record ConnRegistry : Type 0 where
    pub map : List (ℕ × Tx)
    pub writers : List (ℕ × WriterTx)
    pub writer_for_conn : List (ℕ × ℕ)
    pub conns_for_writer : List (ℕ × List ℕ)
    pub meta : List (ℕ × Meta)
    pub next_id : ℕ

  -- `start` is the random number, made odd, that the first connection gets.
  unfoldable pub new : ℕ → ConnRegistry
  new start = record {
    map = [];
    writers = [];
    writer_for_conn = [];
    conns_for_writer = [];
    meta = [];
    next_id = start;
  }

  unfoldable pub register : Tx → ConnRegistry → ℕ × ConnRegistry
  register tx r = (
    r.next_id,
    record r { map = Maps.insert r.next_id tx r.map; next_id = (r.next_id + 1) % 2 ^ 64 },
  )

  -- `if let Some(set) = conns_for_writer.get_mut(&writer_id) { set.remove(&id); }`
  abbrev pub forget_conn : ℕ → ℕ → List (ℕ × List ℕ) → List (ℕ × List ℕ)
  forget_conn id writer_id table = elim (Maps.get writer_id table) [
    | none ↦ table
    | some conns ↦ Maps.insert writer_id (Maps.delete id conns) table
  ]

  unfoldable pub unregister : ℕ → ConnRegistry → Option ℕ × ConnRegistry
  unregister id r =
      let kept = record r { map = Maps.remove id r.map; meta = Maps.remove id r.meta } in
      elim (Maps.get id r.writer_for_conn) [
        | none ↦ (none, kept)
        | some writer_id ↦ (
          some writer_id,
          record kept {
            writer_for_conn = Maps.remove id r.writer_for_conn;
            conns_for_writer = forget_conn id writer_id r.conns_for_writer;
          },
        )
      ]

  -- The set behind `conns_for_writer.entry(writer_id).or_insert_with(HashSet::new)`.
  abbrev pub conns_of : ConnRegistry → ℕ → List ℕ
  conns_of r writer_id = elim (Maps.get writer_id r.conns_for_writer) [
    | none ↦ []
    | some conns ↦ conns
  ]

  unfoldable pub bind_writer : ℕ → ℕ → WriterTx → Meta → ConnRegistry → ConnRegistry
  bind_writer conn_id writer_id tx m r = record r {
    meta = Maps.or_insert conn_id m r.meta;
    writer_for_conn = Maps.insert conn_id writer_id r.writer_for_conn;
    writers = Maps.or_insert writer_id tx r.writers;
    conns_for_writer =
        Maps.insert writer_id (Maps.put conn_id (conns_of r writer_id)) r.conns_for_writer;
  }

  -- The writer of a connection and its sender; `none` where either is missing.
  abbrev writer_with : ℕ → Option WriterTx → Option (ℕ × WriterTx)
  writer_with writer_id none = none
  writer_with writer_id (some tx) = some (writer_id, tx)

  unfoldable pub get_writer : ℕ → ConnRegistry → Option (ℕ × WriterTx)
  get_writer conn_id r = elim (Maps.get conn_id r.writer_for_conn) [
    | none ↦ none
    | some writer_id ↦ writer_with writer_id (Maps.get writer_id r.writers)
  ]

  -- The loop of `writer_lost` over the connections of the writer.
  unfoldable pub unbind_all : List ℕ → List (ℕ × ℕ) → List (ℕ × ℕ)
  unbind_all [] table = table
  unbind_all (conn ∷ conns) table = unbind_all conns (Maps.remove conn table)

  unfoldable pub bound_conns : List ℕ → List (ℕ × Meta) → List (ℕ × Meta)
  bound_conns [] meta = []
  bound_conns (conn ∷ conns) meta =
      let rest = bound_conns conns meta in
      elim (Maps.get conn meta) [ none ↦ rest | some m ↦ (conn, m) ∷ rest ]

  unfoldable pub writer_lost : ℕ → ConnRegistry → List (ℕ × Meta) × ConnRegistry
  writer_lost writer_id r = (
    bound_conns (conns_of r writer_id) r.meta,
    record r {
      writers = Maps.remove writer_id r.writers;
      conns_for_writer = Maps.remove writer_id r.conns_for_writer;
      writer_for_conn = unbind_all (conns_of r writer_id) r.writer_for_conn;
    },
  )

  unfoldable pub get_meta : ℕ → ConnRegistry → Option Meta
  get_meta conn_id r = Maps.get conn_id r.meta

  unfoldable pub is_writer_empty : ℕ → ConnRegistry → Bool
  is_writer_empty writer_id r = elim (Maps.get writer_id r.conns_for_writer) [
    | none ↦ true
    | some conns ↦ is_empty conns
  ]
