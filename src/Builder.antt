-- ===== src/Builder.antt =====
-- src/parser_builder.rs: the builder on readers, and the building of a parser. A reader is the bytes that
-- are read from it; `initial` gives the default of the fields of the parser that `S` stands for, from
-- `get_full_field_info`. `ParserBuilderFromPath` has the same operations on files that it opens.
use notatin.Base.{Bool, false, Option, none, some, List, [], ◌∷◌, ◌++◌, Bytes}
use notatin.Outcome.{Outcome, ok, ◌>>=◌}
use notatin.Log.{Logs, empty, extend}
use notatin.Nom.{Nom}
use notatin.BaseBlock.{Guids}
use notatin.Parser.{FileInfo, Parser, from_read_seek}
use notatin.Filter.{Regexes, Filter}
use notatin.TransactionLog.{parse}
use notatin.TransactionLog.Replay.{Analysis}
use notatin.Recovery.{init}

pub record ParserBuilderBase (x : Regexes) : Type 0 where
  pub filter : Option (Filter x)
  pub recover_deleted : Bool
  pub get_full_field_info : Bool
  pub update_console : Bool

pub record ParserBuilderFromFile (x : Regexes) : Type 0 where
  pub primary : Bytes
  pub transaction_logs : List Bytes
  pub base : ParserBuilderBase x

module _ {x : Regexes} where
  unfoldable pub from_file : Bytes → ParserBuilderFromFile x
  from_file primary = record {
    primary = primary;
    transaction_logs = [];
    base = record {
      filter = none;
      recover_deleted = false;
      get_full_field_info = false;
      update_console = false;
    };
  }

  unfoldable pub with_filter : ParserBuilderFromFile x → Filter x → ParserBuilderFromFile x
  with_filter b filter = record b { base = record b.base { filter = some filter } }

  unfoldable pub with_recover_deleted : ParserBuilderFromFile x → Bool → ParserBuilderFromFile x
  with_recover_deleted b recover = record b { base = record b.base { recover_deleted = recover } }

  unfoldable pub with_full_field_info : ParserBuilderFromFile x → Bool → ParserBuilderFromFile x
  with_full_field_info b full = record b { base = record b.base { get_full_field_info = full } }

  unfoldable pub with_transaction_log : ParserBuilderFromFile x → Bytes → ParserBuilderFromFile x
  with_transaction_log b log = record b { transaction_logs = b.transaction_logs ++ log ∷ [] }

module _ (nom : Nom) {g : Guids} {S : Type 0} (a : Analysis S) (initial : Bool → S) where
  -- The warnings of the logs come behind those of `init`.
  abbrev pub with_warning_logs : Option Logs → Parser g S → Parser g S
  with_warning_logs none p = p
  with_warning_logs (some warning_logs) p = record p { info = extend p.info warning_logs }

  -- `ParserBuilder::build`. The filter of the builder is not used.
  unfoldable pub build_parser :
      {x : Regexes} → FileInfo → ParserBuilderBase x → List Bytes → Outcome (Parser g S)
  unfolding parse init
  build_parser file_info base transaction_logs = do
    (parsed_transaction_logs, warning_logs) ← parse nom transaction_logs
    p ← init nom a base.recover_deleted parsed_transaction_logs (record {
      file_info = file_info;
      info = empty;
      rest = initial base.get_full_field_info;
      base_block = none;
      recover_deleted = base.recover_deleted;
    })
    ok (with_warning_logs warning_logs p)

  -- `ParserBuilderFromFile::build`.
  unfoldable pub build_from_file : {x : Regexes} → ParserBuilderFromFile x → Outcome (Parser g S)
  unfolding build_parser
  build_from_file b = build_parser (from_read_seek b.primary) b.base b.transaction_logs
