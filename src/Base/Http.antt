-- ===== src/Base/Http.antt =====
-- The exceptions of the web framework that the services throw, by their kind, what a failed flush
-- of the database throws, and what the ORM throws where a collection is read that is not loaded.
use Prim.Native.String.{String}

pub data HttpError : Type 0 where
  bad_request not_found unauthorized forbidden conflict : String → HttpError
  database_failed : HttpError
  not_initialized : HttpError
