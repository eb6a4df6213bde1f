-- ===== src/Servlet/Tests.antt =====
-- The theorems about ServletDispatch (Sylar/HttpServer/servlet.cc) at concrete inputs: a path and a
-- servlet are numbers, and the pattern 0 matches every path.
use my_sylar_server.Base.{ℕ, ℕ_discrete, ◌≡◌, [], ◌∷◌, arith, ◌==◌, Bool, ◌||◌}
use my_sylar_server.Servlet.{
  ServletDispatch, hold_servlet_creator, servlet_creator, add_servlet, get_matched_servlet,
}
use my_sylar_server.Servlet.Laws.{add_servlet_lem}

abbrev matches : ℕ → ℕ → Bool
matches pattern path = (pattern == 0) || (pattern == path)

abbrev pages : ServletDispatch ℕ ℕ
pages = record {
  datas = (1, hold_servlet_creator 11) ∷ (2, servlet_creator 22) ∷ [];
  globs = (3, hold_servlet_creator 33) ∷ [];
  default = 404;
}

add_servlet_lem_example :
    (get_matched_servlet ℕ_discrete matches 2 (add_servlet ℕ_discrete 2 77 pages) ≡ 77)
    × (get_matched_servlet ℕ_discrete matches 1 (add_servlet ℕ_discrete 2 77 pages)
        ≡ get_matched_servlet ℕ_discrete matches 1 pages)
add_servlet_lem_example = add_servlet_lem ℕ_discrete matches 2 1 77 pages (omega arith)
