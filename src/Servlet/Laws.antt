-- ===== src/Servlet/Laws.antt =====
-- What the methods of ServletDispatch (Sylar/HttpServer/servlet.cc) do to the servlet of a path.
use my_sylar_server.Base.{
  ◌≡◌, ◌≢◌, refl, none, some, List, [], ◌∷◌, ◌++◌, Bool, if◌then◌else◌, arith, Option-cases, inl,
  inr,
}
use my_sylar_server.Base.Dict.{
  dict_find, dict_find-set_self, dict_find-set_ne, dict_find-erase_self, dict_find-erase_ne,
}
use my_sylar_server.Servlet.{
  ServletDispatch, ServletCreator, hold_servlet_creator, created, add_servlet, erase_glob,
  add_glob_servlet, del_servlet, get_servlet, match_glob, get_matched_servlet, get_glob_servlet,
}

module _ {ℓ} {P S : Type ℓ} (dec : Discrete P) (fnmatch : P → P → Bool) where
  -- After `addServlet` a request for that path goes to the servlet, whatever globs match it, and a
  -- request for another path goes where it went.
  pub add_servlet_lem :
      (uri other : P) (slt : S) (d : ServletDispatch P S)
      → other ≢ uri
      → (get_matched_servlet dec fnmatch uri (add_servlet dec uri slt d) ≡ slt)
        × (get_matched_servlet dec fnmatch other (add_servlet dec uri slt d)
            ≡ get_matched_servlet dec fnmatch other d)
  unfolding get_matched_servlet add_servlet
  add_servlet_lem uri other slt d h = (
    rw (get_matched_servlet, dict_find-set_self dec uri (hold_servlet_creator slt) d.datas),
    rw (get_matched_servlet, dict_find-set_ne dec other uri (hold_servlet_creator slt) d.datas h),
  )

  -- A glob that is put behind others serves what they do not match.
  match_glob-append :
      (uri p : P) (c : ServletCreator S) (globs : List (P × ServletCreator S))
      → match_glob fnmatch uri (globs ++ (p, c) ∷ []) ≡ elim (match_glob fnmatch uri globs) [
        | some c' ↦ some c'
        | none ↦ if fnmatch p uri then some c else none
      ]
  unfolding match_glob
  match_glob-append uri p c [] = ground arith
  match_glob-append uri p c ((q, e) ∷ globs) = ground (arith, match_glob-append uri p c globs)

  erase_glob_absent :
      (p : P) (globs : List (P × ServletCreator S))
      → dict_find dec p globs ≡ none
      → erase_glob dec p globs ≡ globs
  unfolding erase_glob dict_find
  erase_glob_absent p [] h = refl
  erase_glob_absent p ((q, e) ∷ globs) h = ground (arith, erase_glob_absent p globs)

  -- `addGlobServlet` of a new pattern: a path with an exact entry or an older glob that matches is
  -- served as before; any other path goes to the servlet if the pattern matches it, and else to the
  -- default.
  pub add_glob_servlet_lem :
      (pattern uri : P) (slt : S) (d : ServletDispatch P S)
      → get_glob_servlet dec pattern d ≡ none
      → get_matched_servlet dec fnmatch uri (add_glob_servlet dec pattern slt d)
        ≡ elim (dict_find dec uri d.datas) [
          | some c ↦ created c
          | none ↦ elim (match_glob fnmatch uri d.globs) [
            | some c ↦ created c
            | none ↦ if fnmatch pattern uri then slt else d.default
          ]
        ]
  unfolding get_matched_servlet add_glob_servlet get_glob_servlet
  add_glob_servlet_lem pattern uri slt d fresh =
      let absent : dict_find dec pattern d.globs ≡ none =
        elim (Option-cases (dict_find dec pattern d.globs)) [
          | inl h ↦ h
          | inr (c, h) ↦ cc (rw h at fresh)
        ] in
      elim (Option-cases (dict_find dec uri d.datas)) [
        | inr (c, h) ↦ rw (get_matched_servlet, h)
        | inl h ↦
            rw
              (
                get_matched_servlet,
                h,
                erase_glob_absent pattern d.globs absent,
                match_glob-append uri pattern (hold_servlet_creator slt) d.globs,
              )
              (ground arith)
      ]

  -- After `delServlet` there is no exact entry: the path is served by the globs and the default alone,
  -- and a request for another path goes where it went.
  pub del_servlet_lem :
      (uri other : P) (d : ServletDispatch P S)
      → other ≢ uri
      → (get_servlet dec uri (del_servlet dec uri d) ≡ none)
        × (get_matched_servlet dec fnmatch uri (del_servlet dec uri d)
            ≡ elim (match_glob fnmatch uri d.globs) [ some c ↦ created c | none ↦ d.default ])
        × (get_matched_servlet dec fnmatch other (del_servlet dec uri d)
            ≡ get_matched_servlet dec fnmatch other d)
  unfolding get_matched_servlet del_servlet get_servlet
  del_servlet_lem uri other d h = (
    rw (get_servlet, dict_find-erase_self dec uri d.datas),
    rw (get_matched_servlet, dict_find-erase_self dec uri d.datas),
    rw (get_matched_servlet, dict_find-erase_ne dec other uri d.datas h),
  )
