-- ===== src/Servlet.antt =====
-- Sylar/HttpServer/servlet.h and servlet.cc: ServletDispatch, which finds the servlet of a request's path:
-- an exact entry first, then the first glob that matches, then the default. Child module: `Laws`.
--
-- `S` is the type of pointers to servlets, none of which is null here; a path is a string of bytes, and `fnmatch` of the C library
-- is a parameter that says whether a pattern matches a path. A lock spans each method's body.
pub mod Laws
mod Tests
use my_sylar_server.Base.{Option, none, some, List, [], ◌∷◌, ◌++◌, Bool, if◌then◌else◌, ℕ}
use my_sylar_server.Base.Dict.{dict_find, dict_set, dict_erase}

-- `IServletCreator`: a servlet that is held, or one that `get` makes.
pub data ServletCreator {ℓ} (S : Type ℓ) : Type ℓ where
  hold_servlet_creator servlet_creator : S → ServletCreator S

abbrev pub created {ℓ} : {S : Type ℓ} → ServletCreator S → S
created (hold_servlet_creator slt) = slt
created (servlet_creator fresh) = fresh

-- `ServletDispatch`, over paths `P`
pub record ServletDispatch {ℓ} (P S : Type ℓ) : Type ℓ where
  pub datas : List (P × ServletCreator S)
  pub globs : List (P × ServletCreator S)
  pub default : S

abbrev pub get_created {ℓ} : {S : Type ℓ} → Option (ServletCreator S) → Option S
get_created none = none
get_created (some c) = some (created c)

module _ {ℓ} {P S : Type ℓ} where
  -- The constructor; the default is a NotFoundServlet.
  unfoldable pub servlet_dispatch : S → ServletDispatch P S
  servlet_dispatch not_found = record { datas = []; globs = []; default = not_found }

module _ {ℓ} {P S : Type ℓ} (dec : Discrete P) where
  unfoldable pub add_servlet_creator :
      P → ServletCreator S → ServletDispatch P S → ServletDispatch P S
  add_servlet_creator uri creator d = record d { datas = dict_set dec uri creator d.datas }

  unfoldable pub add_servlet : P → S → ServletDispatch P S → ServletDispatch P S
  add_servlet uri slt d = record d { datas = dict_set dec uri (hold_servlet_creator slt) d.datas }

  -- The loop that erases the first entry of a pattern.
  unfoldable pub erase_glob : P → List (P × ServletCreator S) → List (P × ServletCreator S)
  erase_glob uri [] = []
  erase_glob uri ((p, c) ∷ globs) = elim (dec p uri) [
    | yes _ ↦ globs
    | no _ ↦ (p, c) ∷ erase_glob uri globs
  ]

  unfoldable pub add_glob_servlet_creator :
      P → ServletCreator S → ServletDispatch P S → ServletDispatch P S
  add_glob_servlet_creator uri creator d = record d {
    globs = erase_glob uri d.globs ++ (uri, creator) ∷ [];
  }

  unfoldable pub add_glob_servlet : P → S → ServletDispatch P S → ServletDispatch P S
  add_glob_servlet uri slt d = record d {
    globs = erase_glob uri d.globs ++ (uri, hold_servlet_creator slt) ∷ [];
  }

  unfoldable pub del_servlet : P → ServletDispatch P S → ServletDispatch P S
  del_servlet uri d = record d { datas = dict_erase dec uri d.datas }

  unfoldable pub del_glob_servlet : P → ServletDispatch P S → ServletDispatch P S
  del_glob_servlet uri d = record d { globs = erase_glob uri d.globs }

  unfoldable pub get_servlet : P → ServletDispatch P S → Option S
  get_servlet uri d = get_created (dict_find dec uri d.datas)

  unfoldable pub get_glob_servlet : P → ServletDispatch P S → Option S
  get_glob_servlet uri d = get_created (dict_find dec uri d.globs)

module _ {ℓ} {P S : Type ℓ} (fnmatch : P → P → Bool) where
  -- The loop over the globs in `getMatchedServlet`.
  unfoldable pub match_glob : P → List (P × ServletCreator S) → Option (ServletCreator S)
  match_glob uri [] = none
  match_glob uri ((p, c) ∷ globs) = if fnmatch p uri then some c else match_glob uri globs

module _ {ℓ} {P S : Type ℓ} (dec : Discrete P) (fnmatch : P → P → Bool) where
  unfoldable pub get_matched_servlet : P → ServletDispatch P S → S
  get_matched_servlet uri d = elim (dict_find dec uri d.datas) [
    | some c ↦ created c
    | none ↦ elim (match_glob fnmatch uri d.globs) [ some c ↦ created c | none ↦ d.default ]
  ]

  -- `handle`: the servlet of the path changes the response, and the result is 0.
  unfoldable pub handle {κ} : {R : Type κ} → (S → R → R) → P → ServletDispatch P S → R → R × ℕ
  handle run path d response = (run (get_matched_servlet path d) response, 0)
