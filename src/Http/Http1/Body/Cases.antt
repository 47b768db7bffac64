-- ===== src/Http/Http1/Body/Cases.antt =====
-- http1_fast_path.rs: what holds of a turn that needs the connection, whatever the connection is.
use pd_edge.Common.{List, Option, none, some, ◌≡◌, refl}
use pd_edge.Common.Bytes.{Text}
use pd_edge.Http.Http1.Lines.{Read}
use pd_edge.Http.Http1.Body.{
  io, unavailable, detached, FastHttp1ConnectionIo, FastHttp1RequestBodyState, Turn, fails,
  with_connection, with_parts,
}

module _ (P : Turn → Type 0) (s : FastHttp1RequestBodyState)
    (without : P (fails (io unavailable) s)) where
  pub with_connection-cases :
      (next : FastHttp1ConnectionIo → Turn)
      → ((c : FastHttp1ConnectionIo) → s.connection ≡ some c → P (next c))
      → P (with_connection s next)
  with_connection-cases next h = at_connection s.connection refl
    where
      at_connection :
          (c : Option FastHttp1ConnectionIo)
          → s.connection ≡ c
          → P (elim c [ none ↦ fails (io unavailable) s | some connection ↦ next connection ])
      at_connection none e = without
      at_connection (some c) e = h c e

  pub with_parts-cases :
      (next : List Read → Text → Turn)
      → P (fails (io detached) s)
      → ((c : FastHttp1ConnectionIo) (incoming : List Read)
          → s.connection ≡ some c
          → c.stream ≡ some incoming
          → P (next incoming c.buffered))
      → P (with_parts s next)
  with_parts-cases next detaches h = with_connection-cases _ (λ c e. at_stream c e c.stream refl)
    where
      at_stream :
          (c : FastHttp1ConnectionIo)
          → s.connection ≡ some c
          → (stream : Option (List Read)) → c.stream ≡ stream
          → P (elim stream [
            | none ↦ fails (io detached) s
            | some incoming ↦ next incoming c.buffered
          ])
      at_stream c e none f = detaches
      at_stream c e (some incoming) f = h c incoming e f
