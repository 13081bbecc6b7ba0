-- ===== src/Endpoint/Signals.antt =====
-- gdiroh/src/endpoint.rs: answering changes nothing but what was signalled.
use gdiroh.Prelude.{◌≡◌, refl, Option, none, some, List, [], ◌∷◌, String}
use gdiroh.Blobs.{Answer}
use gdiroh.Docs.Queries.{Reply}
use gdiroh.Endpoint.{IrohEndpoint, Signal, Kind, DocKind}
use gdiroh.Endpoint.Requests.{answer_signal, reply_signal, answer_each, reply_each, emit_option}

-- Answers change nothing but the signals.
abbrev pub OnlySignals : IrohEndpoint → IrohEndpoint → Type 0
OnlySignals e f = f ≡ record e { signals = f.signals }

OnlySignals-emit_option :
    (s : Option Signal) (e f : IrohEndpoint) → OnlySignals (emit_option s e) f → OnlySignals e f
OnlySignals-emit_option none e f h = h
OnlySignals-emit_option (some s) e f h = h

pub OnlySignals-answer_each :
    (given : List (Kind × String × Answer)) (e : IrohEndpoint) → OnlySignals e (answer_each given e)
unfolding answer_each
OnlySignals-answer_each [] e = refl
OnlySignals-answer_each ((kind, about, a) ∷ given) e =
    let s = answer_signal kind about a in
    OnlySignals-emit_option s e (answer_each given (emit_option s e))
      (OnlySignals-answer_each given (emit_option s e))

pub OnlySignals-reply_each :
    (given : List (DocKind × Reply)) (e : IrohEndpoint) → OnlySignals e (reply_each given e)
unfolding reply_each
OnlySignals-reply_each [] e = refl
OnlySignals-reply_each ((kind, r) ∷ given) e =
    let s = reply_signal kind r in
    OnlySignals-emit_option s e (reply_each given (emit_option s e))
      (OnlySignals-reply_each given (emit_option s e))
