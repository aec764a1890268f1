-- ===== src/Server/Dispatch/Registered.antt =====
-- What is true of every handler that `registerDefaultHandlers` of hpserver registers is true of the one
-- that a request goes to.
use hp_server.Prelude.{◌≡◌, some, List, [], ◌∷◌, All}
use hp_server.IntMap.{IntMap}
use hp_server.IntMap.Laws.{put-All, get-All}
use hp_server.Fire.{Frame}
use hp_server.Server.Dispatch.{
  Handler, Registration, handle, handler_key, register_all, utility_handlers, game_handlers,
  account_handlers, default_handlers, handler_of,
}

module _ {κ} (P : Handler → Type κ) where
  abbrev pub AllHandlers : List Registration → Type κ
  AllHandlers rs = All (λ r. P r.handler) rs

  register_all-All :
      (rs : List Registration) (m : IntMap Handler)
      → AllHandlers rs
      → All (λ e. P e.1) m
      → All (λ e. P e.1) (register_all rs m)
  unfolding register_all
  register_all-All [] m right rest = rest
  register_all-All (r ∷ rs) m (first, right) rest =
      register_all-All rs (handle r.component r.command r.handler m) right
        (put-All P (handler_key r.component r.command) r.handler m first rest)

  pub handler_of-All :
      (req : Frame) (h : Handler)
      → AllHandlers utility_handlers
      → AllHandlers game_handlers
      → AllHandlers account_handlers
      → handler_of default_handlers req ≡ some h
      → P h
  unfolding handler_of default_handlers
  handler_of-All req h utility game account =
      get-All P (handler_key req.header.component req.header.command) h default_handlers (
        register_all-All account_handlers _ account
          (register_all-All game_handlers _ game (register_all-All utility_handlers [] utility tt)))
