-- ===== src/Guardrails/Streaming.antt =====
-- What a stream's redactor releases and what it holds back.
use mathlib.Core.Path.{subst}
use mathlib.Core.List.{append_assoc, append-nil}
use internal_portal_ceo_dash.Base.{
  ℕ, ◌≡◌, refl, ap, sym, ◌∙◌, List, [], ◌∷◌, ◌++◌, map, take, drop, take-drop,
}
use internal_portal_ceo_dash.Guardrails.Texts.{Text}
use internal_portal_ceo_dash.Guardrails.{Settings, redact_pii}
use internal_portal_ceo_dash.Guardrails.Cuts.{feed-cut}
use internal_portal_ceo_dash.Guardrails.Stream.{
  StreamRedactor, emit, cut_of, feed, flush_text, flush, redact_stream,
}

abbrev pub joined : List Text → Text
joined [] = []
joined (t ∷ ts) = t ++ joined ts

-- the texts that together are what went in, and each of which was redacted for itself
pub record Pieces (w : Settings) (before : Text) (out : StreamRedactor × Text) : Type 0 where
  pub pieces : List Text
  pub complete : before ≡ joined pieces
  pub redacted : out.1 ≡ joined (map (λ p. (redact_pii w p).0) pieces)
  pub emptied : out.0.buffer ≡ []

flush-Pieces :
    (w : Settings) (buffer : Text) (r : StreamRedactor)
    → r.buffer ≡ []
    → Pieces w buffer (flush_text w buffer r)
unfolding flush_text emit
flush-Pieces w [] r e = record { pieces = []; complete = refl; redacted = refl; emptied = e }
flush-Pieces w (c ∷ t) r e = record {
  pieces = (c ∷ t) ∷ [];
  complete = sym (append-nil (c ∷ t));
  redacted = sym (append-nil (redact_pii w (c ∷ t)).0);
  emptied = e;
}

-- one piece more in front
piece-front :
    (w : Settings) (piece rest : Text) (out : StreamRedactor × Text)
    → Pieces w rest out
    → Pieces w (piece ++ rest) (out.0, (redact_pii w piece).0 ++ out.1)
piece-front w piece rest out p = record {
  pieces = piece ∷ p.pieces;
  complete = ap (λ t. piece ++ t) p.complete;
  redacted = ap (λ t. (redact_pii w piece).0 ++ t) p.redacted;
  emptied = p.emptied;
}

whole : (cut : ℕ) (s t u : Text) → take cut (s ++ t) ++ (drop cut (s ++ t) ++ u) ≡ s ++ (t ++ u)
whole cut s t u =
    sym (append_assoc (take cut (s ++ t)) (drop cut (s ++ t)) u)
    ∙ ap (λ x. x ++ u) (take-drop cut (s ++ t))
    ∙ append_assoc s t u

-- A stream puts out its whole input, redacted in consecutive pieces: the pieces are the buffer and
-- the chunks one after the other, with nothing lost, doubled or moved; what is put out is each piece
-- redacted; and the flush leaves an empty buffer.
pub stream-Pieces :
    (w : Settings) (chunks : List Text) (r : StreamRedactor)
    → Pieces w (r.buffer ++ joined chunks) (redact_stream w chunks r)
unfolding redact_stream flush
stream-Pieces w [] r =
    rw (append-nil r.buffer) (flush-Pieces w r.buffer (record r { buffer = [] }) refl)
stream-Pieces w (chunk ∷ chunks) r =
    let buffer = r.buffer ++ chunk in
    let cut = cut_of w buffer in
    let fed = feed w chunk r in
    let later = redact_stream w chunks fed.0 in
    let (kept, put) = feed-cut w chunk r in
    let ih = subst (λ t. Pieces w (t ++ joined chunks) later) kept (stream-Pieces w chunks fed.0) in
    let front = piece-front w (take cut buffer) (drop cut buffer ++ joined chunks) later ih in
    subst (λ t. Pieces w t (later.0, fed.1 ++ later.1)) (whole cut r.buffer chunk (joined chunks))
      (subst
        (λ t.
          Pieces w (take cut buffer ++ (drop cut buffer ++ joined chunks)) (later.0, t ++ later.1))
        (sym put) front)
