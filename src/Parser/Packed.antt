-- ===== src/Parser/Packed.antt =====
-- `yytable` and `yycheck`, the packed rows and columns of the automaton, and `yystos`.
use th_lang.Base.{ℕ, List, [], ◌∷◌, rows}
use th_lang.Base.Int.{ℤ, pos, negsuc}

-- A positive number is the state to shift to, a negative one the rule to reduce with.
unfoldable pub yytable : List ℤ
yytable = rows (
    (pos 31 ∷ pos 32 ∷ pos 33 ∷ pos 35 ∷ pos 34 ∷ pos 45 ∷ pos 64 ∷ pos 1 ∷ pos 42 ∷ [])
    ∷ (pos 41 ∷ pos 36 ∷ pos 37 ∷ pos 39 ∷ pos 1 ∷ pos 2 ∷ pos 3 ∷ pos 94 ∷ pos 65 ∷ [])
    ∷ (pos 4 ∷ pos 1 ∷ pos 80 ∷ pos 38 ∷ pos 72 ∷ negsuc 67 ∷ pos 39 ∷ pos 96 ∷ pos 43 ∷ [])
    ∷ (pos 33 ∷ pos 90 ∷ pos 66 ∷ pos 104 ∷ pos 30 ∷ pos 81 ∷ pos 73 ∷ pos 69 ∷ pos 70 ∷ [])
    ∷ (pos 71 ∷ pos 90 ∷ pos 68 ∷ pos 34 ∷ pos 101 ∷ pos 95 ∷ pos 40 ∷ pos 10 ∷ pos 74 ∷ [])
    ∷ (pos 75 ∷ pos 76 ∷ pos 77 ∷ pos 11 ∷ pos 12 ∷ pos 13 ∷ pos 14 ∷ negsuc 67 ∷ [])
    ∷ (pos 116 ∷ pos 40 ∷ pos 105 ∷ pos 78 ∷ pos 115 ∷ pos 108 ∷ pos 114 ∷ pos 85 ∷ [])
    ∷ (pos 79 ∷ pos 112 ∷ pos 82 ∷ pos 84 ∷ pos 119 ∷ pos 99 ∷ pos 89 ∷ pos 99 ∷ pos 6 ∷ [])
    ∷ (pos 111 ∷ pos 81 ∷ pos 120 ∷ pos 106 ∷ pos 103 ∷ pos 123 ∷ pos 0 ∷ pos 0 ∷ pos 0 ∷ [])
    ∷ (pos 93 ∷ pos 92 ∷ pos 0 ∷ pos 0 ∷ pos 109 ∷ pos 105 ∷ pos 97 ∷ pos 102 ∷ pos 0 ∷ [])
    ∷ (pos 0 ∷ pos 92 ∷ pos 2 ∷ pos 3 ∷ pos 0 ∷ pos 107 ∷ pos 29 ∷ pos 0 ∷ pos 0 ∷ pos 0 ∷ [])
    ∷ (pos 0 ∷ pos 0 ∷ pos 45 ∷ pos 0 ∷ pos 1 ∷ pos 2 ∷ pos 3 ∷ pos 92 ∷ pos 0 ∷ pos 4 ∷ [])
    ∷ (pos 0 ∷ pos 117 ∷ pos 0 ∷ pos 121 ∷ pos 118 ∷ pos 5 ∷ pos 6 ∷ pos 0 ∷ pos 7 ∷ [])
    ∷ (pos 8 ∷ pos 9 ∷ pos 10 ∷ pos 0 ∷ pos 0 ∷ pos 0 ∷ pos 0 ∷ pos 30 ∷ pos 12 ∷ pos 13 ∷ [])
    ∷ (pos 14 ∷ pos 0 ∷ pos 0 ∷ pos 0 ∷ pos 0 ∷ pos 10 ∷ pos 0 ∷ pos 44 ∷ pos 0 ∷ pos 0 ∷ [])
    ∷ (pos 11 ∷ pos 12 ∷ pos 13 ∷ pos 14 ∷ pos 1 ∷ pos 2 ∷ pos 3 ∷ pos 0 ∷ pos 0 ∷ pos 4 ∷ [])
    ∷ (pos 0 ∷ pos 0 ∷ pos 0 ∷ pos 0 ∷ pos 0 ∷ pos 5 ∷ pos 6 ∷ pos 0 ∷ pos 7 ∷ pos 8 ∷ [])
    ∷ (pos 9 ∷ pos 0 ∷ pos 0 ∷ pos 0 ∷ pos 0 ∷ pos 0 ∷ pos 0 ∷ pos 0 ∷ pos 0 ∷ pos 0 ∷ [])
    ∷ (pos 0 ∷ pos 0 ∷ pos 0 ∷ pos 0 ∷ pos 10 ∷ pos 0 ∷ pos 44 ∷ pos 0 ∷ pos 0 ∷ pos 11 ∷ [])
    ∷ (pos 12 ∷ pos 13 ∷ pos 14 ∷ pos 1 ∷ pos 2 ∷ pos 3 ∷ pos 0 ∷ pos 0 ∷ pos 4 ∷ pos 0 ∷ [])
    ∷ (pos 0 ∷ pos 0 ∷ pos 0 ∷ pos 110 ∷ pos 5 ∷ pos 6 ∷ pos 0 ∷ pos 7 ∷ pos 8 ∷ pos 9 ∷ [])
    ∷ (pos 1 ∷ pos 2 ∷ pos 3 ∷ pos 0 ∷ pos 0 ∷ pos 4 ∷ pos 0 ∷ pos 0 ∷ pos 0 ∷ pos 0 ∷ [])
    ∷ (pos 0 ∷ pos 5 ∷ pos 6 ∷ pos 10 ∷ pos 7 ∷ pos 8 ∷ pos 9 ∷ pos 0 ∷ pos 11 ∷ pos 12 ∷ [])
    ∷ (pos 13 ∷ pos 14 ∷ pos 0 ∷ pos 46 ∷ pos 47 ∷ pos 48 ∷ pos 49 ∷ pos 0 ∷ pos 0 ∷ [])
    ∷ (pos 0 ∷ pos 10 ∷ pos 0 ∷ pos 0 ∷ pos 0 ∷ pos 0 ∷ pos 11 ∷ pos 12 ∷ pos 13 ∷ [])
    ∷ (pos 14 ∷ pos 50 ∷ pos 51 ∷ pos 52 ∷ pos 53 ∷ pos 54 ∷ pos 55 ∷ pos 56 ∷ pos 57 ∷ [])
    ∷ (pos 58 ∷ pos 59 ∷ pos 60 ∷ pos 61 ∷ pos 62 ∷ pos 0 ∷ pos 0 ∷ pos 88 ∷ pos 46 ∷ [])
    ∷ (pos 47 ∷ pos 48 ∷ pos 49 ∷ pos 0 ∷ pos 0 ∷ pos 0 ∷ pos 0 ∷ pos 0 ∷ pos 0 ∷ pos 0 ∷ [])
    ∷ (pos 0 ∷ pos 0 ∷ pos 0 ∷ pos 0 ∷ pos 0 ∷ pos 50 ∷ pos 51 ∷ pos 52 ∷ pos 53 ∷ [])
    ∷ (pos 54 ∷ pos 55 ∷ pos 56 ∷ pos 57 ∷ pos 58 ∷ pos 59 ∷ pos 60 ∷ pos 61 ∷ pos 62 ∷ [])
    ∷ (pos 0 ∷ pos 0 ∷ pos 113 ∷ pos 46 ∷ pos 47 ∷ pos 48 ∷ pos 49 ∷ pos 0 ∷ pos 67 ∷ [])
    ∷ (pos 0 ∷ pos 0 ∷ pos 0 ∷ pos 0 ∷ pos 0 ∷ pos 0 ∷ pos 0 ∷ pos 0 ∷ pos 0 ∷ pos 0 ∷ [])
    ∷ (pos 50 ∷ pos 51 ∷ pos 52 ∷ pos 53 ∷ pos 54 ∷ pos 55 ∷ pos 56 ∷ pos 57 ∷ pos 58 ∷ [])
    ∷ (pos 59 ∷ pos 60 ∷ pos 61 ∷ pos 62 ∷ pos 46 ∷ pos 47 ∷ pos 48 ∷ pos 49 ∷ pos 0 ∷ [])
    ∷ (pos 86 ∷ pos 0 ∷ pos 0 ∷ pos 0 ∷ pos 0 ∷ pos 0 ∷ pos 0 ∷ pos 0 ∷ pos 0 ∷ pos 0 ∷ [])
    ∷ (pos 0 ∷ pos 50 ∷ pos 51 ∷ pos 52 ∷ pos 53 ∷ pos 54 ∷ pos 55 ∷ pos 56 ∷ pos 57 ∷ [])
    ∷ (pos 58 ∷ pos 59 ∷ pos 60 ∷ pos 61 ∷ pos 62 ∷ pos 46 ∷ pos 47 ∷ pos 48 ∷ pos 49 ∷ [])
    ∷ (pos 0 ∷ pos 87 ∷ pos 0 ∷ pos 0 ∷ pos 0 ∷ pos 0 ∷ pos 0 ∷ pos 0 ∷ pos 0 ∷ pos 0 ∷ [])
    ∷ (pos 0 ∷ pos 0 ∷ pos 50 ∷ pos 51 ∷ pos 52 ∷ pos 53 ∷ pos 54 ∷ pos 55 ∷ pos 56 ∷ [])
    ∷ (pos 57 ∷ pos 58 ∷ pos 59 ∷ pos 60 ∷ pos 61 ∷ pos 62 ∷ pos 46 ∷ pos 47 ∷ pos 48 ∷ [])
    ∷ (pos 49 ∷ pos 0 ∷ pos 122 ∷ pos 0 ∷ pos 0 ∷ pos 0 ∷ pos 0 ∷ pos 0 ∷ pos 0 ∷ pos 0 ∷ [])
    ∷ (pos 0 ∷ pos 0 ∷ pos 0 ∷ pos 50 ∷ pos 51 ∷ pos 52 ∷ pos 53 ∷ pos 54 ∷ pos 55 ∷ [])
    ∷ (pos 56 ∷ pos 57 ∷ pos 58 ∷ pos 59 ∷ pos 60 ∷ pos 61 ∷ pos 62 ∷ pos 46 ∷ pos 47 ∷ [])
    ∷ (pos 48 ∷ pos 49 ∷ pos 0 ∷ pos 0 ∷ pos 0 ∷ pos 0 ∷ pos 0 ∷ pos 0 ∷ pos 0 ∷ pos 0 ∷ [])
    ∷ (pos 0 ∷ pos 0 ∷ pos 0 ∷ pos 0 ∷ pos 50 ∷ pos 51 ∷ pos 52 ∷ pos 53 ∷ pos 54 ∷ [])
    ∷ (pos 55 ∷ pos 56 ∷ pos 57 ∷ pos 58 ∷ pos 59 ∷ pos 60 ∷ pos 61 ∷ pos 62 ∷ pos 48 ∷ [])
    ∷ (pos 49 ∷ pos 0 ∷ pos 0 ∷ pos 0 ∷ pos 0 ∷ pos 0 ∷ pos 0 ∷ pos 0 ∷ pos 0 ∷ pos 0 ∷ [])
    ∷ (pos 0 ∷ pos 0 ∷ pos 0 ∷ pos 50 ∷ pos 51 ∷ pos 52 ∷ pos 53 ∷ pos 54 ∷ pos 55 ∷ [])
    ∷ (pos 56 ∷ pos 57 ∷ pos 58 ∷ pos 59 ∷ pos 60 ∷ pos 61 ∷ pos 62 ∷ pos 50 ∷ pos 51 ∷ [])
    ∷ (pos 52 ∷ pos 53 ∷ pos 54 ∷ pos 55 ∷ pos 56 ∷ pos 57 ∷ pos 0 ∷ pos 59 ∷ pos 60 ∷ [])
    ∷ (pos 61 ∷ pos 62 ∷ [])
    ∷ [])

-- The token or the state that an entry of `yytable` belongs to.
unfoldable pub yycheck : List ℤ
yycheck = rows (
    (pos 2 ∷ pos 3 ∷ pos 4 ∷ pos 5 ∷ pos 4 ∷ pos 16 ∷ pos 25 ∷ pos 3 ∷ pos 10 ∷ pos 9 ∷ [])
    ∷ (pos 8 ∷ pos 8 ∷ pos 8 ∷ pos 3 ∷ pos 4 ∷ pos 5 ∷ pos 9 ∷ pos 8 ∷ pos 8 ∷ pos 3 ∷ [])
    ∷ (pos 8 ∷ pos 8 ∷ pos 41 ∷ pos 9 ∷ pos 8 ∷ pos 9 ∷ pos 0 ∷ pos 29 ∷ pos 80 ∷ pos 20 ∷ [])
    ∷ (pos 9 ∷ pos 38 ∷ pos 20 ∷ pos 44 ∷ pos 36 ∷ pos 37 ∷ pos 38 ∷ pos 89 ∷ pos 9 ∷ [])
    ∷ (pos 39 ∷ pos 87 ∷ pos 34 ∷ pos 38 ∷ pos 33 ∷ pos 46 ∷ pos 47 ∷ pos 48 ∷ pos 49 ∷ [])
    ∷ (pos 38 ∷ pos 39 ∷ pos 40 ∷ pos 41 ∷ pos 38 ∷ pos 105 ∷ pos 38 ∷ pos 34 ∷ pos 58 ∷ [])
    ∷ (pos 104 ∷ pos 9 ∷ pos 9 ∷ pos 8 ∷ pos 63 ∷ pos 16 ∷ pos 65 ∷ pos 66 ∷ pos 112 ∷ [])
    ∷ (pos 12 ∷ pos 8 ∷ pos 12 ∷ pos 15 ∷ pos 99 ∷ pos 20 ∷ pos 112 ∷ pos 92 ∷ pos 89 ∷ [])
    ∷ (pos 122 ∷ negsuc 0 ∷ negsuc 0 ∷ negsuc 0 ∷ pos 81 ∷ pos 80 ∷ negsuc 0 ∷ negsuc 0 ∷ [])
    ∷ (pos 34 ∷ pos 34 ∷ pos 85 ∷ pos 88 ∷ negsuc 0 ∷ negsuc 0 ∷ pos 89 ∷ pos 4 ∷ pos 5 ∷ [])
    ∷ (negsuc 0 ∷ pos 95 ∷ pos 8 ∷ negsuc 0 ∷ negsuc 0 ∷ negsuc 0 ∷ negsuc 0 ∷ negsuc 0 ∷ [])
    ∷ (pos 111 ∷ negsuc 0 ∷ pos 3 ∷ pos 4 ∷ pos 5 ∷ pos 105 ∷ negsuc 0 ∷ pos 8 ∷ [])
    ∷ (negsuc 0 ∷ pos 109 ∷ negsuc 0 ∷ pos 113 ∷ pos 13 ∷ pos 14 ∷ pos 15 ∷ negsuc 0 ∷ [])
    ∷ (pos 17 ∷ pos 18 ∷ pos 19 ∷ pos 33 ∷ negsuc 0 ∷ negsuc 0 ∷ negsuc 0 ∷ negsuc 0 ∷ [])
    ∷ (pos 38 ∷ pos 39 ∷ pos 40 ∷ pos 41 ∷ negsuc 0 ∷ negsuc 0 ∷ negsuc 0 ∷ negsuc 0 ∷ [])
    ∷ (pos 33 ∷ negsuc 0 ∷ pos 35 ∷ negsuc 0 ∷ negsuc 0 ∷ pos 38 ∷ pos 39 ∷ pos 40 ∷ [])
    ∷ (pos 41 ∷ pos 3 ∷ pos 4 ∷ pos 5 ∷ negsuc 0 ∷ negsuc 0 ∷ pos 8 ∷ negsuc 0 ∷ [])
    ∷ (negsuc 0 ∷ negsuc 0 ∷ negsuc 0 ∷ negsuc 0 ∷ pos 14 ∷ pos 15 ∷ negsuc 0 ∷ pos 17 ∷ [])
    ∷ (pos 18 ∷ pos 19 ∷ negsuc 0 ∷ negsuc 0 ∷ negsuc 0 ∷ negsuc 0 ∷ negsuc 0 ∷ negsuc 0 ∷ [])
    ∷ (negsuc 0 ∷ negsuc 0 ∷ negsuc 0 ∷ negsuc 0 ∷ negsuc 0 ∷ negsuc 0 ∷ negsuc 0 ∷ [])
    ∷ (pos 33 ∷ negsuc 0 ∷ pos 35 ∷ negsuc 0 ∷ negsuc 0 ∷ pos 38 ∷ pos 39 ∷ pos 40 ∷ [])
    ∷ (pos 41 ∷ pos 3 ∷ pos 4 ∷ pos 5 ∷ negsuc 0 ∷ negsuc 0 ∷ pos 8 ∷ negsuc 0 ∷ [])
    ∷ (negsuc 0 ∷ negsuc 0 ∷ negsuc 0 ∷ pos 13 ∷ pos 14 ∷ pos 15 ∷ negsuc 0 ∷ pos 17 ∷ [])
    ∷ (pos 18 ∷ pos 19 ∷ pos 3 ∷ pos 4 ∷ pos 5 ∷ negsuc 0 ∷ negsuc 0 ∷ pos 8 ∷ negsuc 0 ∷ [])
    ∷ (negsuc 0 ∷ negsuc 0 ∷ negsuc 0 ∷ negsuc 0 ∷ pos 14 ∷ pos 15 ∷ pos 33 ∷ pos 17 ∷ [])
    ∷ (pos 18 ∷ pos 19 ∷ negsuc 0 ∷ pos 38 ∷ pos 39 ∷ pos 40 ∷ pos 41 ∷ negsuc 0 ∷ pos 4 ∷ [])
    ∷ (pos 5 ∷ pos 6 ∷ pos 7 ∷ negsuc 0 ∷ negsuc 0 ∷ negsuc 0 ∷ pos 33 ∷ negsuc 0 ∷ [])
    ∷ (negsuc 0 ∷ negsuc 0 ∷ negsuc 0 ∷ pos 38 ∷ pos 39 ∷ pos 40 ∷ pos 41 ∷ pos 20 ∷ [])
    ∷ (pos 21 ∷ pos 22 ∷ pos 23 ∷ pos 24 ∷ pos 25 ∷ pos 26 ∷ pos 27 ∷ pos 28 ∷ pos 29 ∷ [])
    ∷ (pos 30 ∷ pos 31 ∷ pos 32 ∷ negsuc 0 ∷ negsuc 0 ∷ pos 35 ∷ pos 4 ∷ pos 5 ∷ pos 6 ∷ [])
    ∷ (pos 7 ∷ negsuc 0 ∷ negsuc 0 ∷ negsuc 0 ∷ negsuc 0 ∷ negsuc 0 ∷ negsuc 0 ∷ [])
    ∷ (negsuc 0 ∷ negsuc 0 ∷ negsuc 0 ∷ negsuc 0 ∷ negsuc 0 ∷ negsuc 0 ∷ pos 20 ∷ pos 21 ∷ [])
    ∷ (pos 22 ∷ pos 23 ∷ pos 24 ∷ pos 25 ∷ pos 26 ∷ pos 27 ∷ pos 28 ∷ pos 29 ∷ pos 30 ∷ [])
    ∷ (pos 31 ∷ pos 32 ∷ negsuc 0 ∷ negsuc 0 ∷ pos 35 ∷ pos 4 ∷ pos 5 ∷ pos 6 ∷ pos 7 ∷ [])
    ∷ (negsuc 0 ∷ pos 9 ∷ negsuc 0 ∷ negsuc 0 ∷ negsuc 0 ∷ negsuc 0 ∷ negsuc 0 ∷ [])
    ∷ (negsuc 0 ∷ negsuc 0 ∷ negsuc 0 ∷ negsuc 0 ∷ negsuc 0 ∷ pos 20 ∷ pos 21 ∷ pos 22 ∷ [])
    ∷ (pos 23 ∷ pos 24 ∷ pos 25 ∷ pos 26 ∷ pos 27 ∷ pos 28 ∷ pos 29 ∷ pos 30 ∷ pos 31 ∷ [])
    ∷ (pos 32 ∷ pos 4 ∷ pos 5 ∷ pos 6 ∷ pos 7 ∷ negsuc 0 ∷ pos 9 ∷ negsuc 0 ∷ negsuc 0 ∷ [])
    ∷ (negsuc 0 ∷ negsuc 0 ∷ negsuc 0 ∷ negsuc 0 ∷ negsuc 0 ∷ negsuc 0 ∷ negsuc 0 ∷ [])
    ∷ (negsuc 0 ∷ pos 20 ∷ pos 21 ∷ pos 22 ∷ pos 23 ∷ pos 24 ∷ pos 25 ∷ pos 26 ∷ pos 27 ∷ [])
    ∷ (pos 28 ∷ pos 29 ∷ pos 30 ∷ pos 31 ∷ pos 32 ∷ pos 4 ∷ pos 5 ∷ pos 6 ∷ pos 7 ∷ [])
    ∷ (negsuc 0 ∷ pos 9 ∷ negsuc 0 ∷ negsuc 0 ∷ negsuc 0 ∷ negsuc 0 ∷ negsuc 0 ∷ [])
    ∷ (negsuc 0 ∷ negsuc 0 ∷ negsuc 0 ∷ negsuc 0 ∷ negsuc 0 ∷ pos 20 ∷ pos 21 ∷ pos 22 ∷ [])
    ∷ (pos 23 ∷ pos 24 ∷ pos 25 ∷ pos 26 ∷ pos 27 ∷ pos 28 ∷ pos 29 ∷ pos 30 ∷ pos 31 ∷ [])
    ∷ (pos 32 ∷ pos 4 ∷ pos 5 ∷ pos 6 ∷ pos 7 ∷ negsuc 0 ∷ pos 9 ∷ negsuc 0 ∷ negsuc 0 ∷ [])
    ∷ (negsuc 0 ∷ negsuc 0 ∷ negsuc 0 ∷ negsuc 0 ∷ negsuc 0 ∷ negsuc 0 ∷ negsuc 0 ∷ [])
    ∷ (negsuc 0 ∷ pos 20 ∷ pos 21 ∷ pos 22 ∷ pos 23 ∷ pos 24 ∷ pos 25 ∷ pos 26 ∷ pos 27 ∷ [])
    ∷ (pos 28 ∷ pos 29 ∷ pos 30 ∷ pos 31 ∷ pos 32 ∷ pos 4 ∷ pos 5 ∷ pos 6 ∷ pos 7 ∷ [])
    ∷ (negsuc 0 ∷ negsuc 0 ∷ negsuc 0 ∷ negsuc 0 ∷ negsuc 0 ∷ negsuc 0 ∷ negsuc 0 ∷ [])
    ∷ (negsuc 0 ∷ negsuc 0 ∷ negsuc 0 ∷ negsuc 0 ∷ negsuc 0 ∷ pos 20 ∷ pos 21 ∷ pos 22 ∷ [])
    ∷ (pos 23 ∷ pos 24 ∷ pos 25 ∷ pos 26 ∷ pos 27 ∷ pos 28 ∷ pos 29 ∷ pos 30 ∷ pos 31 ∷ [])
    ∷ (pos 32 ∷ pos 6 ∷ pos 7 ∷ negsuc 0 ∷ negsuc 0 ∷ negsuc 0 ∷ negsuc 0 ∷ negsuc 0 ∷ [])
    ∷ (negsuc 0 ∷ negsuc 0 ∷ negsuc 0 ∷ negsuc 0 ∷ negsuc 0 ∷ negsuc 0 ∷ negsuc 0 ∷ [])
    ∷ (pos 20 ∷ pos 21 ∷ pos 22 ∷ pos 23 ∷ pos 24 ∷ pos 25 ∷ pos 26 ∷ pos 27 ∷ pos 28 ∷ [])
    ∷ (pos 29 ∷ pos 30 ∷ pos 31 ∷ pos 32 ∷ pos 20 ∷ pos 21 ∷ pos 22 ∷ pos 23 ∷ pos 24 ∷ [])
    ∷ (pos 25 ∷ pos 26 ∷ pos 27 ∷ negsuc 0 ∷ pos 29 ∷ pos 30 ∷ pos 31 ∷ pos 32 ∷ [])
    ∷ [])

-- By state: the symbol that leads to it.
unfoldable pub yystos : List ℕ
yystos = rows (
    (0 ∷ 3 ∷ 4 ∷ 5 ∷ 8 ∷ 14 ∷ 15 ∷ 17 ∷ 18 ∷ 19 ∷ 33 ∷ 38 ∷ 39 ∷ 40 ∷ 41 ∷ 46 ∷ 48 ∷ [])
    ∷ (49 ∷ 50 ∷ 52 ∷ 53 ∷ 54 ∷ 55 ∷ 56 ∷ 58 ∷ 60 ∷ 61 ∷ 63 ∷ 64 ∷ 8 ∷ 38 ∷ 50 ∷ 50 ∷ 50 ∷ [])
    ∷ (60 ∷ 50 ∷ 8 ∷ 8 ∷ 8 ∷ 8 ∷ 38 ∷ 60 ∷ 50 ∷ 0 ∷ 35 ∷ 49 ∷ 4 ∷ 5 ∷ 6 ∷ 7 ∷ 20 ∷ 21 ∷ [])
    ∷ (22 ∷ 23 ∷ 24 ∷ 25 ∷ 26 ∷ 27 ∷ 28 ∷ 29 ∷ 30 ∷ 31 ∷ 32 ∷ 51 ∷ 64 ∷ 8 ∷ 20 ∷ 9 ∷ 9 ∷ [])
    ∷ (50 ∷ 50 ∷ 50 ∷ 64 ∷ 49 ∷ 50 ∷ 50 ∷ 50 ∷ 50 ∷ 50 ∷ 50 ∷ 8 ∷ 20 ∷ 50 ∷ 59 ∷ 50 ∷ 8 ∷ [])
    ∷ (9 ∷ 9 ∷ 35 ∷ 8 ∷ 56 ∷ 57 ∷ 60 ∷ 50 ∷ 9 ∷ 34 ∷ 9 ∷ 60 ∷ 62 ∷ 12 ∷ 47 ∷ 47 ∷ 50 ∷ [])
    ∷ (57 ∷ 9 ∷ 34 ∷ 64 ∷ 50 ∷ 9 ∷ 34 ∷ 13 ∷ 48 ∷ 16 ∷ 35 ∷ 9 ∷ 47 ∷ 56 ∷ 60 ∷ 13 ∷ 47 ∷ [])
    ∷ (55 ∷ 50 ∷ 9 ∷ 47 ∷ [])
    ∷ [])
