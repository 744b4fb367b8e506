-- ===== src/Tests/Views.antt =====
-- Two orders of the same joins.
use gim.Base.{◌≡◌, refl, String, some, List, [], ◌∷◌, arith, string_eq}
use gim.Ws.TGroup.Members.{is_member}
use gim.Ws.TGroup.View.{
  Groups, Call, joins, leaves, last_call, or_before, view, run_calls, run_calls-view,
}
use gim.Tests.Groups.{team, team-Inv, team-HasUsers}

abbrev there : Groups
there = (team, team-Inv, team-HasUsers)

-- `bob` first; or `cat` first, and `bob` only after a leave.
abbrev bob_first : List Call
bob_first = joins "team" "bob" ∷ joins "team" "cat" ∷ []

abbrev cat_first : List Call
cat_first = joins "team" "cat" ∷ leaves "team" "bob" ∷ joins "team" "bob" ∷ []

same_last : (gid uid : String) → last_call bob_first gid uid ≡ last_call cat_first gid uid
unfolding last_call
same_last gid uid = ground arith

run_calls-view_example :
    (b b' : Groups) × (run_calls 4 bob_first (some team) ≡ some b.0)
    × (run_calls 4 cat_first (some team) ≡ some b'.0)
    × (view b ≡ view b')
    × ((gid uid : String)
        → is_member gid uid b.0 ≡ or_before (last_call bob_first gid uid) (is_member gid uid team))
run_calls-view_example = run_calls-view 4 bob_first cat_first there there refl same_last
