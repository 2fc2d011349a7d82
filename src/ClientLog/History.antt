-- ===== src/ClientLog/History.antt =====
-- The log against the whole history of what was logged.
use mathlib.Core.List.{append_assoc, append-nil}
use mathlib.Core.Path.{subst}
use nat_data_collector.Prelude.{
  ℕ, zero, suc, ◌-◌, ◌<◌, ◌≤◌, ◌≡◌, ◌∙◌, refl, sym, ap, some, List, [], ◌∷◌, ◌++◌, leb, arith,
  length, length-append, length-drop, drop, inl, inr, Bool-cases, true, ◌↔◌,
}
use nat_data_collector.ClientLog.{
  Log, new_log, set_log_buffer_size, Entry, log_internal, log_all, erase_first,
}

-- The last lines of a history.
unfoldable pub last_lines : ℕ → List Entry → List Entry
last_lines n history = drop (length history - n) history

-- A buffer that holds the last lines of a history.
pub record Shows (history : List Entry) (log : Log) : Type 0 where
  pub buffer : log.log_buffer ≡ last_lines log.max_log_lines history

drop-nil : (n : ℕ) → drop {A = Entry} n [] ≡ []
drop-nil zero = refl
drop-nil (suc n) = refl

drop-cons :
    (n : ℕ) (h : List Entry) (e : Entry)
    → n < length h
    → (x : Entry) × (drop n h ≡ x ∷ drop (suc n) h)
drop-cons zero [] e p = absurd (omega arith)
drop-cons zero (x ∷ h) e p = (x, refl)
drop-cons (suc n) [] e p = absurd (omega arith)
drop-cons (suc n) (x ∷ h) e p = drop-cons n h e (omega arith)

drop-snoc :
    (n : ℕ) (h : List Entry) (x : Entry) → n ≤ length h → drop n (h ++ x ∷ []) ≡ drop n h ++ x ∷ []
drop-snoc zero h x p = refl
drop-snoc (suc n) [] x p = absurd (omega arith)
drop-snoc (suc n) (y ∷ h) x p = drop-snoc n h x (omega arith)

length-last_lines : (m : ℕ) (h : List Entry) → length (last_lines m h) ≡ length h - (length h - m)
unfolding last_lines
length-last_lines m h = length-drop (length h - m) h

later :
    (m : ℕ) (h : List Entry) (e : Entry)
    → m ≤ length h
    → suc (length h - m) ≡ length (h ++ e ∷ []) - m
later m h e full = omega (arith, length-append h (e ∷ []))

-- A full buffer without its first line, and the new one.
erase_first-last_lines :
    (m : ℕ) (h : List Entry) (e : Entry)
    → 0 < m
    → m ≤ length h
    → (es : List Entry) × (erase_first (last_lines m h) ≡ some es)
      × (es ++ e ∷ [] ≡ last_lines m (h ++ e ∷ []))
unfolding last_lines
erase_first-last_lines m h e pos full =
    let n = length h - m in
    let c = drop-cons n h e (omega arith) in
    (
      drop (suc n) h,
      ap erase_first c.1,
      sym (drop-snoc (suc n) h e (omega arith)) ∙ ap (λ k. drop k (h ++ e ∷ [])) (later m h e full),
    )

last_lines-snoc :
    (m : ℕ) (h : List Entry) (e : Entry)
    → length h < m
    → last_lines m h ++ e ∷ [] ≡ last_lines m (h ++ e ∷ [])
unfolding last_lines
last_lines-snoc m h e room =
    sym (drop-snoc (length h - m) h e (omega arith))
    ∙ ap (λ k. drop k (h ++ e ∷ [])) (omega (arith, length-append h (e ∷ [])))

is_full :
    (m : ℕ) (h : List Entry) (b : List Entry)
    → b ≡ last_lines m h
    → (leb m (length b) ≡ true) ↔ (m ≤ length h)
is_full m h b p = rw (p, length-last_lines m h) (ground arith)

log_internal-Shows :
    (history : List Entry) (log : Log) (e : Entry)
    → 0 < log.max_log_lines
    → Shows history log
    → (l : Log) × (log_internal log e ≡ some l)
      × (l.max_log_lines ≡ log.max_log_lines)
      × Shows (history ++ e ∷ []) l
unfolding log_internal
log_internal-Shows history log e pos s =
    let m = log.max_log_lines in
    let full = is_full m history log.log_buffer s.buffer in
    elim (Bool-cases (leb m (length log.log_buffer))) [
      | inl t ↦
          let k = erase_first-last_lines m history e pos (full.0 t) in
          (
            record log { log_buffer = k.0 ++ e ∷ []; scroll_to_bottom = true },
            rw (t, s.buffer, k.1) refl,
            refl,
            record { buffer = k.2 },
          )
      | inr t ↦
          let room : length history < m = grind (arith, full, t) in
          (
            record log { log_buffer = log.log_buffer ++ e ∷ []; scroll_to_bottom = true },
            rw t refl,
            refl,
            record { buffer = rw s.buffer (last_lines-snoc m history e room) },
          )
    ]

log_all-Shows :
    (history : List Entry) (log : Log) (es : List Entry)
    → 0 < log.max_log_lines
    → Shows history log
    → (l : Log) × (log_all log es ≡ some l)
      × (l.max_log_lines ≡ log.max_log_lines)
      × Shows (history ++ es) l
unfolding log_all
log_all-Shows history log [] pos s =
    (log, refl, refl, subst (λ h. Shows h log) (sym (append-nil history)) s)
log_all-Shows history log (e ∷ es) pos s =
    let k = log_internal-Shows history log e pos s in
    let r = log_all-Shows (history ++ e ∷ []) k.0 es (rw k.2 pos) k.3 in
    (r.0, rw (k.1) r.1, r.2 ∙ k.2, subst (λ h. Shows h r.0) (append_assoc history (e ∷ []) es) r.3)

-- From a new log whose size was set to a positive number, logging any entries always returns, and
-- the buffer then holds exactly the last lines of everything that was logged, as many as were set
-- and in the order of logging.
pub log_all-last_lines :
    (size : ℕ) (es : List Entry)
    → 0 < size
    → (l : Log) × (log_all (set_log_buffer_size new_log size) es ≡ some l)
      × (l.log_buffer ≡ last_lines size es)
unfolding set_log_buffer_size last_lines
log_all-last_lines size es pos =
    let k =
      log_all-Shows [] (set_log_buffer_size new_log size) es pos
        (record { buffer = sym (drop-nil (0 - size)) }) in
    (k.0, k.1, k.3.buffer ∙ ap (λ m. last_lines m es) k.2)
