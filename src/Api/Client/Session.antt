-- ===== src/Api/Client/Session.antt =====
-- ob_dump.h: a client that frees what it was given, over any sequence of calls.
use ob_dump.Base.{
  ℕ, ◌+◌, List, [], ◌∷◌, ◌++◌, Bool, Option, none, some, Bytes, length, length-append, ◌≡◌, refl,
  ◌∙◌, arith, All,
}
use ob_dump.Json.{JsonLib}
use ob_dump.Lmdb.{LmdbLib}
use ob_dump.Lmdb.Balance.Reader.{Prepares}
use ob_dump.Decode.{FlatLib, FlexLib}
use ob_dump.Api.{
  ObDumpSource, Process, ObDumpRecordCallback, ob_dump_json, ob_dump_schema, ob_dump_fbs,
  ob_dump_stream, ob_dump_free,
}
use ob_dump.Api.Client.{
  SameStore, IsString, Answers, ob_dump_json-Answers, ob_dump_schema-Answers, ob_dump_fbs-Answers,
  ob_dump_stream-Keeps,
}

-- The process, and the blocks that the client was given and has not freed.
pub record Client (U : Type 0) : Type 0 where
  pub process : Process U
  pub owned : List Bytes

module _ {U : Type 0} where
  -- The client keeps what a call returns.
  abbrev pub given : List Bytes → Option Bytes × Process U → Client U
  given owned (none, p) = record { process = p; owned = owned }
  given owned (some block, p) = record { process = p; owned = block ∷ owned }

  -- The blocks that are allocated are the ones there were and the client's, each of the client's is a
  -- string, and no environment and no transaction is open that was not.
  pub record Accounts (start : Process U) (c : Client U) : Type 0 where
    pub counted : c.process.blocks ≡ start.blocks + length c.owned
    pub strings : All IsString c.owned
    pub store : SameStore start.handles c.process.handles

module _ {F : Type 0} (J : JsonLib F) (B : FlatLib F) (X : FlexLib F) (L : LmdbLib)
    (malloc : ℕ → Bool) {U : Type 0} where
  -- One call of the interface. A block that is freed is one of the client's, and its only one.
  pub data Step : Client U → Client U → Type 0 where
    dumps :
        (source : Option ObDumpSource) (model_json : Option Bytes) (c : Client U)
        → Step c (given c.owned (ob_dump_json J B X L malloc source model_json c.process))
    exports :
        (model_json : Option Bytes) (c : Client U)
        → Step c (given c.owned (ob_dump_schema J B X L malloc model_json c.process))
    generates :
        (model_json : Option Bytes) (c : Client U)
        → Step c (given c.owned (ob_dump_fbs J B X L malloc model_json c.process))
    streams :
        (source : Option ObDumpSource) (model_json : Option Bytes)
        (callback : Option (ObDumpRecordCallback U)) (c : Client U)
        → Step c (record c {
          process = (ob_dump_stream J B X L malloc source model_json callback c.process).1;
        })
    frees :
        (before after : List Bytes) (block : Bytes) (p : Process U)
        → Step
            (record { process = p; owned = before ++ block ∷ after })
            (record { process = ob_dump_free (some block) p; owned = before ++ after })
    frees_null : (c : Client U) → Step c (record c { process = ob_dump_free none c.process })

  pub data Reach (s : Client U) : Client U → Type 0 where
    here : Reach s s
    next : {c d : Client U} → Reach s c → Step c d → Reach s d

All-without :
    (before after : List Bytes) (block : Bytes)
    → All IsString (before ++ block ∷ after)
    → All IsString (before ++ after)
All-without [] after block h = h.1
All-without (b ∷ before) after block h = (h.0, All-without before after block h.1)

module _ {U : Type 0} where
  given-Accounts :
      (start : Process U) (c : Client U) (called : Option Bytes × Process U)
      → Accounts start c
      → Answers c.process called
      → Accounts start (given c.owned called)
  given-Accounts start c (none, p) a (b, h, s) = record {
    counted = omega (arith, b, a.counted);
    strings = a.strings;
    store = (h.0 ∙ a.store.0, h.1 ∙ a.store.1);
  }
  given-Accounts start c (some block, p) a (b, h, s) = record {
    counted = omega (arith, b, a.counted);
    strings = (s, a.strings);
    store = (h.0 ∙ a.store.0, h.1 ∙ a.store.1);
  }

  freed-Accounts :
      (start p : Process U) (before after : List Bytes) (block : Bytes)
      → Accounts start (record { process = p; owned = before ++ block ∷ after })
      → Accounts start (record { process = ob_dump_free (some block) p; owned = before ++ after })
  unfolding ob_dump_free
  freed-Accounts start p before after block a = record {
    counted =
        omega (arith, a.counted, length-append before (block ∷ after), length-append before after);
    strings = All-without before after block a.strings;
    store = a.store;
  }

module _ {F : Type 0} (J : JsonLib F) (B : FlatLib F) (X : FlexLib F) (L : LmdbLib)
    (malloc : ℕ → Bool) {U : Type 0} (prepares : (path : Bytes) → Prepares L path) where
  Step-Accounts :
      {start : Process U} {c d : Client U}
      → Step J B X L malloc c d
      → Accounts start c
      → Accounts start d
  unfolding ob_dump_free
  Step-Accounts {start = start} (dumps source model_json c) a =
      given-Accounts start c _ a
        (ob_dump_json-Answers J B X L malloc prepares source model_json c.process)
  Step-Accounts {start = start} (exports model_json c) a =
      given-Accounts start c _ a
        (ob_dump_schema-Answers J B X L malloc prepares model_json c.process)
  Step-Accounts {start = start} (generates model_json c) a =
      given-Accounts start c _ a (ob_dump_fbs-Answers J B X L malloc prepares model_json c.process)
  Step-Accounts (streams source model_json callback c) a =
      let (b, h) =
        ob_dump_stream-Keeps J B X L malloc prepares source model_json callback c.process in
      record {
        counted = b ∙ a.counted;
        strings = a.strings;
        store = (h.0 ∙ a.store.0, h.1 ∙ a.store.1);
      }
  Step-Accounts {start = start} (frees before after block p) a =
      freed-Accounts start p before after block a
  Step-Accounts (frees_null c) a = a

  -- If LMDB's two set calls succeed and the paths can be examined, then over any sequence of calls of
  -- the interface, by a client that frees only what it holds: the allocated blocks are those at the
  -- start and the ones that the client holds, each of them a text with a NUL behind it, and no
  -- environment and no transaction has been left open.
  pub session-Accounts :
      (start : Process U) (c : Client U)
      → Reach J B X L malloc (record { process = start; owned = [] }) c
      → Accounts start c
  session-Accounts start c here = record {
    counted = omega arith;
    strings = tt;
    store = (refl, refl);
  }
  session-Accounts start c (next r s) = Step-Accounts s (session-Accounts start _ r)
