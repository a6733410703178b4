-- ===== src/Prog.antt =====
-- What a handler does to the world: calls of the API clients, of the target provider and of the
-- event recorder, each with the reply that the rest of the handler goes on from. A client is code
-- outside the repository, so nothing is assumed of a reply but its type.
pub mod Trace
pub mod Replay
use poollet.Base.{String, Bool, Option, List}
use poollet.Base.Dict.{Dict}
use poollet.Errors.{Result, ok, err, Error}
use poollet.Api.Metadata.{Kind}
use poollet.Api.Objects.{Obj}

-- The cluster of the handler's own objects, and the one that they are synced to.
pub data Side : Type 0 where
  source target : Side

-- A client reads from its cache, an API reader from the server.
pub data Reader : Type 0 where
  cached live : Side → Reader

pub record ObjectKey : Type 0 where
  pub namespace : String
  pub name : String

pub record ListOptions : Type 0 where
  pub namespace : Option String
  pub fields : Dict String
  pub labels : Dict String

-- `create_or_patch` hands the API client a function that mutates the object as it is read, or the
-- given one if there is none; `patch` takes the object before and after.
pub data Op : Type 0 where
  get : Reader → Kind → ObjectKey → Op
  list : Reader → Kind → ListOptions → Op
  create : Side → (kind : Kind) → Obj kind → Op
  patch patch_status : Side → (kind : Kind) → Obj kind → Obj kind → Op
  delete delete_if_exists : Side → Kind → ObjectKey → Op
  create_or_patch : Side → (kind : Kind) → Obj kind → (Obj kind → Result (Obj kind)) → Op
  ensure_finalizer ensure_no_finalizer remove_finalizer :
      Side → (kind : Kind) → Obj kind → String → Op
  provider_target : Kind → ObjectKey → Op
  event : Kind → ObjectKey → String → Op

abbrev pub Reply : Op → Type 0
Reply (get reader kind key) = Result (Obj kind)
Reply (list reader kind options) = Result (List (Obj kind))
Reply (create side kind obj) = Result (Obj kind)
Reply (patch side kind base obj) = Result (Obj kind)
Reply (patch_status side kind base obj) = Result (Obj kind)
Reply (delete side kind key) = Result (Unit {0})
Reply (delete_if_exists side kind key) = Result Bool
Reply (create_or_patch side kind obj mutate) = Result (Obj kind)
Reply (ensure_finalizer side kind obj finalizer) = Result Bool
Reply (ensure_no_finalizer side kind obj finalizer) = Result Bool
Reply (remove_finalizer side kind obj finalizer) = Result (Unit {0})
Reply (provider_target kind key) = Result (Obj kind)
Reply (event kind key text) = Unit {0}

pub data Prog (A : Type 0) : Type 0 where
  done : A → Prog A
  call : (o : Op) → (Reply o → Prog A) → Prog A

infixl 5 ◌>>=◌ ◌>>?◌
abbrev pub ◌>>=◌ : {A B : Type 0} → Prog A → (A → Prog B) → Prog B
done a >>= f = f a
call o k >>= f = call o (λ r. k r >>= f)

abbrev pub or_fail : {A B : Type 0} → (A → Prog (Result B)) → Result A → Prog (Result B)
or_fail f (ok a) = f a
or_fail f (err e) = done (err e)

-- `if err != nil { return …, err }`
abbrev pub ◌>>?◌ : {A B : Type 0} → Prog (Result A) → (A → Prog (Result B)) → Prog (Result B)
m >>? f = m >>= or_fail f

abbrev pub perform : (o : Op) → Prog (Reply o)
perform o = call o done
