-- ===== src/Registry/Contracts.antt =====
-- registry/contracts.go. A nil slice or map is `none`; `ServerType` and `MatchStatus` are strings.
use bananagine.Prelude.{String, ℤ, Bool, Option, List}
use bananagine.Map.{Map}

abbrev pub type_lobby : String
type_lobby = "lobby"

abbrev pub type_game : String
type_game = "game"

abbrev pub status_ready : String
status_ready = "ready"

abbrev pub status_busy : String
status_busy = "busy"

abbrev pub status_starting : String
status_starting = "starting"

pub record Match : Type 0 where
  pub status : String
  pub need : ℤ
  pub players : Option (List String)

pub record Server : Type 0 where
  pub id : String
  pub type : String
  pub mode : String
  pub host : String
  pub port : ℤ
  pub webhook_port : ℤ
  pub players : ℤ
  pub max_players : ℤ
  pub matches : Option (Map String Match)
  pub metadata : Option (Map String String)

pub record ListRequest : Type 0 where
  pub type : String
  pub mode : String
  pub has_capacity : Bool
  pub has_ready_match : Bool

pub record UpdateRequest : Type 0 where
  pub id : String
  pub players : Option ℤ
  pub max_players : Option ℤ
  pub metadata : Option (Map String String)

pub record SetPlayersRequest : Type 0 where
  pub id : String
  pub players : ℤ

pub record PutMatchRequest : Type 0 where
  pub server_id : String
  pub match_id : String
  pub match : Match

pub record RemoveMatchRequest : Type 0 where
  pub server_id : String
  pub match_id : String
