-- ===== src/Session/Receive/Binary.antt =====
-- The warning of `processAudioChunk`.
use transcription_api.Prelude.{
  codes, ℕ, ◌≤◌, ◌≡◌, refl, sym, subst, true, some, List, [], ◌∷◌, ◌++◌, arith, if◌then◌else◌,
  length,
}
use transcription_api.Float.{FloatOps}
use transcription_api.Engine.{Engine, high_water_mark}
use transcription_api.Engine.Buffer.{process_audio_chunk_lem}
use transcription_api.Session.State.{Session, warning, send_message}
use transcription_api.Session.Receive.{process_audio_chunk}

module _ {F : Type 0} ⦃fl : FloatOps F⦄ where
  -- The chunks that arrive while the buffer is full.
  unfoldable pub chunks : List (List F) → ℕ → Session F → Session F
  chunks [] now s = s
  chunks (a ∷ as') now s = chunks as' now (process_audio_chunk a now s)

  full_chunk :
      (a : List F) (now : ℕ) (s : Session F) (e : Engine F)
      → s.configured ≡ true
      → s.socket_open ≡ true
      → s.engine ≡ some e
      → high_water_mark ≤ length e.audio_buffer
      → process_audio_chunk a now s ≡ record s {
        last_audio_time = now;
        buffer_overflowed = true;
        outbox =
            if s.buffer_overflowed
            then s.outbox
            else s.outbox
              ++ warning (codes "buffer_full") (codes "Audio buffer full, dropping incoming audio")
                ∷ [];
      }
  unfolding process_audio_chunk send_message
  full_chunk a now s e c o on full = ground (arith, process_audio_chunk_lem a e)

  -- However many chunks, one at least, arrive at a configured and open session whose buffer is full, all of them are dropped, and the client is
  -- sent exactly one warning, or none if it was warned before.
  pub chunks_warn_once :
      (a : List F) (as' : List (List F)) (now : ℕ) (s : Session F) (e : Engine F)
      → s.configured ≡ true
      → s.socket_open ≡ true
      → s.engine ≡ some e
      → high_water_mark ≤ length e.audio_buffer
      → let t = chunks (a ∷ as') now s in
        (t.engine ≡ some e)
        × (t.buffer_overflowed ≡ true)
        × (t.outbox ≡ (
            if s.buffer_overflowed
            then s.outbox
            else s.outbox
              ++ warning (codes "buffer_full") (codes "Audio buffer full, dropping incoming audio")
                ∷ []))
  unfolding chunks
  chunks_warn_once a [] now s e c o on full = rw (full_chunk a now s e c o on full) (on, refl, refl)
  chunks_warn_once a (b ∷ bs) now s e c o on full =
      subst
        (λ (x : Session F).
          let t = chunks (b ∷ bs) now x in
          (t.engine ≡ some e)
          × (t.buffer_overflowed ≡ true)
          × (t.outbox ≡ (
              if s.buffer_overflowed
              then s.outbox
              else s.outbox
                ++ warning (codes "buffer_full")
                    (codes "Audio buffer full, dropping incoming audio")
                  ∷ [])))
        (sym (full_chunk a now s e c o on full)) (chunks_warn_once b bs now _ e c o on full)
