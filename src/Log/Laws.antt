-- ===== src/Log/Laws.antt =====
-- What the operations of src/log.rs do to the sequence of entries.
use notatin.Base.{◌≡◌, ◌||◌, List, [], ◌∷◌, ◌++◌, arith}
use notatin.Log.{LogCode, Logs, Part, add, has_logs, entries, extend}

pub entries-add :
    (code : LogCode) (text : List Part) (l : Logs)
    → entries (add code text l) ≡ entries l ++ record { code = code; text = text } ∷ []
unfolding add
entries-add code text l = ground arith

pub entries-extend : (l m : Logs) → entries (extend l m) ≡ entries l ++ entries m
unfolding extend
entries-extend l m = ground arith

has_logs-extend : (l m : Logs) → has_logs (extend l m) ≡ (has_logs l || has_logs m)
unfolding has_logs extend
has_logs-extend l m = ground arith
