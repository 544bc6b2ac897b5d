-- ===== src/Server/Http/Gauges.antt =====
-- The text of `/metrics` as a scraper reads it: a line that starts with a name and a blank has its value.
use transcription_api.Prelude.{
  Text, codes, Text_discrete, ℕ, ◌+◌, ◌≡◌, refl, sym, ap, ◌∙◌, subst, true, Option, none, some,
  List, [], ◌∷◌, ◌++◌, append_assoc, ◌==◌, if◌then◌else◌, All,
}
use transcription_api.Server.DotEnv.{lines_from}
use transcription_api.Server.Numbers.{to_string, read_digits}
use transcription_api.Server.Http.Lines.{
  is_line, is_line-append, is_line-show_digits, read_digits-to_string, unlines, lines_from-unlines,
}
use transcription_api.Server.Http.{
  newline, Shared, Response, combined, handle_http_request, inference_metrics, cache_metrics,
  connection_metrics,
}

-- What follows a prefix.
abbrev pub behind : Text → Text → Option Text
behind [] t = some t
behind (c ∷ p) [] = none
behind (c ∷ p) (d ∷ t) = let rest = behind p t in if c == d then rest else none

-- The value on the first line of a name.
abbrev pub value_on : Text → List Text → Option ℕ
value_on name [] = none
value_on name (l ∷ ls) =
    let rest = value_on name ls in
    elim (behind name l) [ none ↦ rest | some digits ↦ some (read_digits 0 digits) ]

abbrev pub gauge : Text → Text → Option ℕ
gauge name t = value_on (name ++ codes " ") (lines_from [] t)

-- The gauges and their values.
abbrev pub gauges : Shared → List (Text × ℕ)
gauges s =
    (codes "transcription_active_inferences", s.inference.active_count)
    ∷ (codes "transcription_max_inferences", s.inference.max_concurrent)
    ∷ (codes "transcription_model_loaded", elim s.cache.ctx [ none ↦ 0 | some h ↦ 1 ])
    ∷ (codes "transcription_model_ref_count", s.cache.ref_count)
    ∷ (codes "transcription_active_connections", s.limiter.total)
    ∷ (codes "transcription_max_connections", s.limiter.max_total)
    ∷ []

unfoldable combined_lines : Shared → List Text
unfolding to_string
combined_lines s =
    codes "# HELP transcription_active_inferences Number of concurrent inferences"
    ∷ codes "# TYPE transcription_active_inferences gauge"
    ∷ (codes "transcription_active_inferences " ++ to_string s.inference.active_count)
    ∷ (codes "transcription_max_inferences " ++ to_string s.inference.max_concurrent)
    ∷ codes
        "# HELP transcription_model_loaded Whether the model is currently in memory (1=yes, 0=no)"
    ∷ codes "# TYPE transcription_model_loaded gauge"
    ∷ (codes "transcription_model_loaded "
        ++ to_string (elim s.cache.ctx [ none ↦ 0 | some h ↦ 1 ]))
    ∷ (codes "transcription_model_ref_count " ++ to_string s.cache.ref_count)
    ∷ codes "# HELP transcription_active_connections Number of active WebSocket connections"
    ∷ codes "# TYPE transcription_active_connections gauge"
    ∷ (codes "transcription_active_connections " ++ to_string s.limiter.total)
    ∷ (codes "transcription_max_connections " ++ to_string s.limiter.max_total)
    ∷ []

-- The texts of the source, put together as the source does it.
reassociate :
    (h1 t1 a1 m1 b1 n1 h2 t2 a2 m2 b2 n2 h3 t3 a3 m3 b3 n3 : Text)
    → h1
        ++ newline
        ++ t1
        ++ newline
        ++ (a1 ++ m1 ++ newline ++ b1 ++ n1 ++ newline)
        ++ h2
        ++ newline
        ++ t2
        ++ newline
        ++ (a2 ++ m2 ++ newline ++ b2 ++ n2 ++ newline)
        ++ h3
        ++ newline
        ++ t3
        ++ newline
        ++ (a3 ++ m3 ++ newline ++ b3 ++ n3 ++ newline)
      ≡ unlines (
          h1
          ∷ t1
          ∷ (a1 ++ m1)
          ∷ (b1 ++ n1)
          ∷ h2
          ∷ t2
          ∷ (a2 ++ m2)
          ∷ (b2 ++ n2)
          ∷ h3
          ∷ t3
          ∷ (a3 ++ m3)
          ∷ (b3 ++ n3)
          ∷ [])
reassociate h1 t1 a1 m1 b1 n1 h2 t2 a2 m2 b2 n2 h3 t3 a3 m3 b3 n3 = simp append_assoc

combined-unlines : (s : Shared) → combined s ≡ unlines (combined_lines s)
unfolding combined combined_lines inference_metrics cache_metrics connection_metrics
combined-unlines s =
    reassociate (codes "# HELP transcription_active_inferences Number of concurrent inferences")
      (codes "# TYPE transcription_active_inferences gauge")
      (codes "transcription_active_inferences ") (to_string s.inference.active_count)
      (codes "transcription_max_inferences ") (to_string s.inference.max_concurrent)
      (codes
        "# HELP transcription_model_loaded Whether the model is currently in memory (1=yes, 0=no)")
      (codes "# TYPE transcription_model_loaded gauge") (codes "transcription_model_loaded ")
      (to_string (elim s.cache.ctx [ none ↦ 0 | some h ↦ 1 ]))
      (codes "transcription_model_ref_count ") (to_string s.cache.ref_count)
      (codes "# HELP transcription_active_connections Number of active WebSocket connections")
      (codes "# TYPE transcription_active_connections gauge")
      (codes "transcription_active_connections ") (to_string s.limiter.total)
      (codes "transcription_max_connections ") (to_string s.limiter.max_total)

line_of : (a : Text) (n : ℕ) → is_line a ≡ true → is_line (a ++ to_string n) ≡ true
unfolding to_string
line_of a n h = is_line-append a (to_string n) h (is_line-show_digits (n + 1) n [] refl)

combined_are_lines : (s : Shared) → All (λ l. is_line l ≡ true) (combined_lines s)
unfolding combined_lines
combined_are_lines s = (
  refl,
  (
    refl,
    (
      line_of (codes "transcription_active_inferences ") s.inference.active_count refl,
      (
        line_of (codes "transcription_max_inferences ") s.inference.max_concurrent refl,
        (
          refl,
          (
            refl,
            (
              line_of (codes "transcription_model_loaded ")
                  (elim s.cache.ctx [ none ↦ 0 | some h ↦ 1 ]) refl,
              (
                line_of (codes "transcription_model_ref_count ") s.cache.ref_count refl,
                (
                  refl,
                  (
                    refl,
                    (
                      line_of (codes "transcription_active_connections ") s.limiter.total refl,
                      (
                        line_of (codes "transcription_max_connections ") s.limiter.max_total refl,
                        tt,
                      ),
                    ),
                  ),
                ),
              ),
            ),
          ),
        ),
      ),
    ),
  ),
)

gauges_read :
    (s : Shared) → All (λ g. value_on (g.0 ++ codes " ") (combined_lines s) ≡ some g.1) (gauges s)
unfolding combined_lines
gauges_read s = (
  ap some (read_digits-to_string s.inference.active_count),
  (
    ap some (read_digits-to_string s.inference.max_concurrent),
    (
      ap some (read_digits-to_string (elim s.cache.ctx [ none ↦ 0 | some h ↦ 1 ])),
      (
        ap some (read_digits-to_string s.cache.ref_count),
        (
          ap some (read_digits-to_string s.limiter.total),
          (ap some (read_digits-to_string s.limiter.max_total), tt),
        ),
      ),
    ),
  ),
)

-- A request for `/metrics` is answered 200 with a text in which a scraper finds, by their names, the six
-- numbers of the limiters and the cache.
pub metrics_read :
    (s : Shared)
    → (r : Response) × (handle_http_request (codes "/metrics") s ≡ some r)
      × (r.status ≡ 200)
      × All (λ g. gauge g.0 r.body ≡ some g.1) (gauges s)
unfolding handle_http_request Text_discrete
metrics_read s =
    let lines =
      ap (lines_from []) (combined-unlines s)
      ∙ lines_from-unlines (combined_lines s) (combined_are_lines s) in
    (
      _,
      refl,
      refl,
      subst (λ ls. All (λ g. value_on (g.0 ++ codes " ") ls ≡ some g.1) (gauges s)) (sym lines)
          (gauges_read s),
    )
