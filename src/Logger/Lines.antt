-- ===== src/Logger/Lines.antt =====
-- The lines that a run of the logger writes.
use mathlib.Core.List.{append-nil, append_assoc}
use jn_server_cc.Base.{
  ◌≡◌, refl, true, false, ◌∙◌, ap, Bool-cases, inl, inr, List, [], ◌∷◌, ◌++◌, Bytes, codes, ltb,
  if◌then◌else◌,
}
use jn_server_cc.Logger.{
  LogLevel, log_debug, log_info, log_warn, log_error, number, FileStream, Logger, Clock,
  get_current_time, label, write, Entry, message, set_log_level, log, log_all,
}

-- A stream with everything written.
abbrev pub settled : Bytes → FileStream
settled text = record { written = text; buffer = [] }

settled_lem : (f : FileStream) → f.buffer ≡ [] → f ≡ settled f.written
settled_lem f e = cc e

module _ {Args : Type 0} (vformat : Bytes → Args → Bytes) where
  abbrev line : LogLevel → Clock → Bytes → Args → Bytes
  line level clock format args =
      vformat (get_current_time clock ++ (label level ++ format)) args ++ codes "\n"

  -- The lines of the messages that are at the level of their time or above it.
  unfoldable pub lines : LogLevel → List (Entry Args) → Bytes
  lines threshold [] = []
  lines threshold (message level clock format args ∷ es) =
      let rest = lines threshold es in
      if ltb (number level) (number threshold) then rest else line level clock format args ++ rest
  lines threshold (set_log_level level ∷ es) = lines level es

  abbrev after : LogLevel → Clock → Bytes → Args → Logger → Logger
  after level clock format args l = record l {
    fstrm = settled (l.fstrm.written ++ line level clock format args);
    cur_buf_msg_count = 0;
  }

  write_above :
      (level : LogLevel) (clock : Clock) (format : Bytes) (args : Args) (l : Logger)
      → l.fstrm.buffer ≡ []
      → ltb (number level) (number l.level) ≡ false
      → write vformat clock level format args l ≡ after level clock format args l
  unfolding write
  write_above log_debug clock format args l e h = rw (h, e) refl
  write_above log_info clock format args l e h = rw (h, e) refl
  write_above log_warn clock format args l e h = rw (h, e) refl
  write_above log_error clock format args l e h = rw (h, e) refl

  write_below :
      (level : LogLevel) (clock : Clock) (format : Bytes) (args : Args) (l : Logger)
      → ltb (number level) (number l.level) ≡ true
      → write vformat clock level format args l ≡ l
  unfolding write
  write_below level clock format args l h = rw (h) refl

  next :
      (level : LogLevel) (clock : Clock) (format : Bytes) (args : Args) (es : List (Entry Args))
      (l l' : Logger)
      → write vformat clock level format args l ≡ l'
      → log_all vformat (message level clock format args ∷ es) l ≡ log_all vformat es l'
  unfolding log_all log
  next level clock format args es l l' h = ap (log_all vformat es) h

  -- A logger with nothing in the buffer of its stream, over any calls of it, writes exactly the
  -- lines of the messages that are at the level of their time or above it, in order and behind
  -- what was written before, and leaves nothing in the buffer.
  pub log_all-lines :
      (es : List (Entry Args)) (l : Logger)
      → l.fstrm.buffer ≡ []
      → (log_all vformat es l).fstrm ≡ settled (l.fstrm.written ++ lines l.level es)
  unfolding log_all log lines
  log_all-lines [] l e = rw (append-nil) (settled_lem l.fstrm e)
  log_all-lines (set_log_level level ∷ es) l e = log_all-lines es (record l { level = level }) e
  log_all-lines (message level clock format args ∷ es) l e =
      elim (Bool-cases (ltb (number level) (number l.level))) [
        | inl h ↦
            ap (λ r. r.fstrm)
              (next level clock format args es l l (write_below level clock format args l h))
            ∙ rw (h) (log_all-lines es l e)
        | inr h ↦
            let l' = after level clock format args l in
            ap (λ r. r.fstrm)
              (next level clock format args es l l' (write_above level clock format args l e h))
            ∙ rw (h) (log_all-lines es l' refl ∙ ap settled (append_assoc l.fstrm.written _ _))
      ]
