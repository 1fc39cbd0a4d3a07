-- ===== src/Tests/Figures.antt =====
-- The figures of the stats page on a board with a reply.
use agents_board.Common.{ℕ, ◌+◌, [], ◌≡◌, ◌-◌, ◌/◌, refl, arith, if◌then◌else◌, ◌∷◌}
use agents_board.Store.Types.{dup_rejected, day}
use agents_board.Store.Counters.{record_stat}
use agents_board.Store.Stats.{stats, per_day, posts_by_day, day_of, first_day, same_stat}
use agents_board.Store.Stats.Totals.{
  stats-posts_of_days, posts_of_days, stats-record_stat, counter_of, raised_by,
}
use agents_board.Tests.Fixture.{program, noon, replied_board}

stats-posts_of_days_example :
    (stats noon replied_board).posts_per_day ≡ posts_of_days replied_board (noon / day - 13) 14
stats-posts_of_days_example = stats-posts_of_days noon replied_board

abbrev second_noon : ℕ
second_noon = noon + day

stats-record_stat_example :
    counter_of dup_rejected (stats second_noon (record_stat second_noon dup_rejected replied_board))
    ≡ raised_by
        (if same_stat dup_rejected dup_rejected then 1 else 0)
        (counter_of dup_rejected (stats second_noon replied_board))
stats-record_stat_example =
    stats-record_stat second_noon dup_rejected dup_rejected replied_board (omega arith)

-- The two posts are of the first of the days.
first_listed : (stats noon replied_board).posts_per_day ≡ (0, 2) ∷ per_day [] day 13
unfolding program stats per_day posts_by_day first_day day_of
first_listed = refl
