-- ===== src/Session/Flush/Texts.antt =====
-- The two transcriptions: the one that passed the guard, and the raw one behind it.
use transcription_api.Prelude.{
  Text, is_empty, ℕ, ◌≡◌, refl, sym, ap, ap₂, ◌∙◌, ◌⊎◌, inl, inr, true, false, not, ◌&&◌, some,
  List, [], ◌∷◌, ◌++◌, append_assoc, append-nil, arith, if◌then◌else◌, Bool-cases,
}
use transcription_api.Float.{FloatOps}
use transcription_api.Engine.{Engine, Outcome, TranscribeResult, transcribe_sliding_window}
use transcription_api.Session.State.{
  Session, Surroundings, done, transcription, send_message, close_socket, CloseReason,
}
use transcription_api.Session.Receive.{finish_transcription, handle_end}
use transcription_api.Session.Flush.{absorb, text_ok}

-- One decode of the flush thread.
pub record Decode (F : Type 0) : Type 0 where
  pub size : ℕ
  pub result : TranscribeResult
  pub engine : Engine F

abbrev pub commits : {F : Type 0} → List (Decode F) → Text
commits [] = []
commits (d ∷ ds) = d.result.committed_text ++ commits ds

-- The commits that the guard lets through.
abbrev pub kept : {F : Type 0} → List (Decode F) → Text
kept [] = []
kept (d ∷ ds) = (if text_ok d.result.committed_text then d.result.committed_text else []) ++ kept ds

-- What is sent at the end.
abbrev pub final_text : Text → Text → Text
final_text full raw = if is_empty full then raw else full

-- The fallback of `handleEnd`, in one test.
fallback :
    (full raw : Text)
    → (if is_empty full && not (is_empty raw) then raw else full) ≡ final_text full raw
fallback [] [] = refl
fallback [] (c ∷ raw) = refl
fallback (c ∷ full) raw = refl

module _ {F : Type 0} ⦃fl : FloatOps F⦄ where
  unfoldable pub absorb_all : List (Decode F) → Session F → Session F
  absorb_all [] s = s
  absorb_all (d ∷ ds) s = absorb_all ds (absorb d.size d.result d.engine s)

  -- Over any decodes the raw transcription gains every commit, in order, and the full one those that
  -- are no hallucination.
  pub absorb_all_texts :
      (ds : List (Decode F)) (s : Session F)
      → ((absorb_all ds s).raw_transcription ≡ s.raw_transcription ++ commits ds)
        × ((absorb_all ds s).full_transcription ≡ s.full_transcription ++ kept ds)
  unfolding absorb_all absorb
  absorb_all_texts [] s = (sym (append-nil _), sym (append-nil _))
  absorb_all_texts (d ∷ ds) s =
      let (raw, full) = absorb_all_texts ds (absorb d.size d.result d.engine s) in
      (
        raw ∙ append_assoc s.raw_transcription d.result.committed_text (commits ds),
        full ∙ split (Bool-cases (text_ok d.result.committed_text)),
      )
    where
      split :
          (text_ok d.result.committed_text ≡ true) ⊎ (text_ok d.result.committed_text ≡ false)
          → (absorb d.size d.result d.engine s).full_transcription ++ kept ds
            ≡ s.full_transcription ++ kept (d ∷ ds)
      split (inl good) =
          rw good (append_assoc s.full_transcription d.result.committed_text (kept ds))
      split (inr bad) = rw bad

  finish_open :
      (t : Session F)
      → t.socket_open ≡ true
      → let u = finish_transcription t in
        (u.outbox
          ≡ t.outbox
            ++ transcription
                (if is_empty t.full_transcription && not (is_empty t.raw_transcription)
                  then t.raw_transcription
                  else t.full_transcription)
                true
              ∷ [])
        × (u.socket_open ≡ false)
        × (u.closes ≡ t.closes ++ CloseReason.normal ∷ [])
  unfolding finish_transcription send_message close_socket
  finish_open t o = ground arith

  socket_open-absorb_all :
      (ds : List (Decode F)) (s : Session F) → (absorb_all ds s).socket_open ≡ s.socket_open
  unfolding absorb_all absorb
  socket_open-absorb_all [] s = refl
  socket_open-absorb_all (d ∷ ds) s = socket_open-absorb_all ds _

  -- Let the flush thread have absorbed any decodes in an open session with an engine, and let the last,
  -- forced decode of `handleEnd` succeed. Then `handleEnd` sends one last transcription, marked final: what
  -- the session had transcribed, the texts of the absorbed decodes that the guard let through, and the
  -- text of the forced decode, which is not filtered; if that is empty, the raw text that the session had,
  -- with all that the absorbed decodes committed. It closes the stream, and the engine is the one behind the forced decode.
  pub end_sends :
      (env : Surroundings F) (ds : List (Decode F)) (s : Session F) (e e' : Engine F)
      (res : TranscribeResult)
      → s.socket_open ≡ true
      → (absorb_all ds s).engine ≡ some e
      → transcribe_sliding_window env.decode true e ≡ Outcome.returns (res, e')
      → let t = absorb_all ds s in
        (u : Session F) × (handle_end env t ≡ done u)
        × (u.outbox
            ≡ t.outbox
              ++ transcription
                  (final_text
                    (s.full_transcription ++ kept ds ++ res.committed_text)
                    (s.raw_transcription ++ commits ds))
                  true
                ∷ [])
        × (u.socket_open ≡ false)
        × (u.closes ≡ t.closes ++ CloseReason.normal ∷ [])
        × (u.engine ≡ some e')
  unfolding handle_end finish_transcription send_message close_socket
  end_sends env ds s e e' res o on decoded =
      let t = absorb_all ds s in
      let last : Session F = record t {
        engine = some e';
        full_transcription = t.full_transcription ++ res.committed_text;
      } in
      let (raw, full) = absorb_all_texts ds s in
      let open_still = socket_open-absorb_all ds s ∙ o in
      let joined = ap (λ (x : Text). x ++ res.committed_text) full in
      let said =
        fallback last.full_transcription last.raw_transcription ∙ ap₂ final_text joined raw in
      let (outbox, socket, closes) = finish_open last open_still in
      (
        finish_transcription last,
        ground (arith, on, decoded),
        outbox ∙ ap (λ (x : Text). t.outbox ++ transcription x true ∷ []) said,
        socket,
        closes,
        ground (arith, open_still),
      )
