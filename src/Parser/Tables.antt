-- ===== src/Parser/Tables.antt =====
-- The tables of the parser's automaton, in the order in which parser.cpp has them.
use th_lang.Base.{ℕ, List, [], ◌∷◌, rows}
use th_lang.Base.Int.{ℤ, pos, negsuc}

-- By state: where its row of `yytable` starts. -53 says that it has none.
unfoldable pub yypact : List ℤ
yypact = rows (
    (pos 194 ∷ negsuc 52 ∷ pos 86 ∷ pos 86 ∷ pos 10 ∷ pos 86 ∷ pos 2 ∷ pos 3 ∷ pos 13 ∷ [])
    ∷ (pos 4 ∷ pos 86 ∷ pos 14 ∷ negsuc 52 ∷ negsuc 52 ∷ negsuc 52 ∷ pos 26 ∷ pos 138 ∷ [])
    ∷ (negsuc 52 ∷ pos 396 ∷ negsuc 52 ∷ negsuc 52 ∷ negsuc 52 ∷ negsuc 52 ∷ negsuc 52 ∷ [])
    ∷ (negsuc 52 ∷ negsuc 6 ∷ negsuc 52 ∷ negsuc 52 ∷ pos 9 ∷ pos 86 ∷ negsuc 52 ∷ [])
    ∷ (pos 436 ∷ pos 436 ∷ pos 280 ∷ pos 29 ∷ pos 396 ∷ pos 86 ∷ pos 86 ∷ pos 86 ∷ pos 4 ∷ [])
    ∷ (negsuc 52 ∷ negsuc 6 ∷ pos 436 ∷ negsuc 52 ∷ pos 194 ∷ negsuc 52 ∷ pos 86 ∷ [])
    ∷ (pos 86 ∷ pos 86 ∷ pos 86 ∷ negsuc 52 ∷ negsuc 52 ∷ negsuc 52 ∷ negsuc 52 ∷ [])
    ∷ (negsuc 52 ∷ negsuc 52 ∷ negsuc 52 ∷ negsuc 52 ∷ pos 86 ∷ negsuc 52 ∷ negsuc 52 ∷ [])
    ∷ (negsuc 52 ∷ negsuc 52 ∷ pos 86 ∷ pos 12 ∷ pos 86 ∷ pos 86 ∷ negsuc 52 ∷ pos 52 ∷ [])
    ∷ (pos 309 ∷ pos 338 ∷ pos 216 ∷ pos 59 ∷ negsuc 52 ∷ pos 423 ∷ pos 423 ∷ pos 436 ∷ [])
    ∷ (pos 436 ∷ pos 436 ∷ pos 396 ∷ pos 4 ∷ pos 86 ∷ pos 396 ∷ pos 7 ∷ pos 396 ∷ pos 16 ∷ [])
    ∷ (pos 56 ∷ pos 56 ∷ pos 86 ∷ pos 4 ∷ negsuc 52 ∷ pos 21 ∷ negsuc 6 ∷ pos 396 ∷ [])
    ∷ (negsuc 52 ∷ pos 86 ∷ negsuc 52 ∷ negsuc 52 ∷ pos 49 ∷ pos 177 ∷ pos 46 ∷ [])
    ∷ (negsuc 52 ∷ pos 248 ∷ pos 50 ∷ pos 56 ∷ pos 4 ∷ pos 51 ∷ pos 396 ∷ negsuc 52 ∷ [])
    ∷ (pos 4 ∷ negsuc 52 ∷ pos 99 ∷ pos 54 ∷ pos 86 ∷ negsuc 52 ∷ negsuc 52 ∷ negsuc 52 ∷ [])
    ∷ (negsuc 52 ∷ negsuc 52 ∷ negsuc 52 ∷ negsuc 52 ∷ pos 367 ∷ pos 56 ∷ negsuc 52 ∷ [])
    ∷ [])

-- By state: the rule to reduce with if `yytable` says nothing; 0 is an error.
unfoldable pub yydefact : List ℕ
yydefact = rows (
    (0 ∷ 61 ∷ 0 ∷ 0 ∷ 0 ∷ 14 ∷ 0 ∷ 0 ∷ 0 ∷ 0 ∷ 0 ∷ 69 ∷ 17 ∷ 18 ∷ 19 ∷ 0 ∷ 2 ∷ 8 ∷ 16 ∷ [])
    ∷ (20 ∷ 11 ∷ 10 ∷ 9 ∷ 12 ∷ 13 ∷ 0 ∷ 63 ∷ 62 ∷ 21 ∷ 0 ∷ 69 ∷ 30 ∷ 29 ∷ 0 ∷ 0 ∷ 15 ∷ 0 ∷ [])
    ∷ (0 ∷ 0 ∷ 0 ∷ 68 ∷ 0 ∷ 31 ∷ 1 ∷ 6 ∷ 5 ∷ 0 ∷ 0 ∷ 0 ∷ 0 ∷ 33 ∷ 34 ∷ 35 ∷ 36 ∷ 37 ∷ 38 ∷ [])
    ∷ (39 ∷ 40 ∷ 0 ∷ 41 ∷ 42 ∷ 43 ∷ 44 ∷ 0 ∷ 51 ∷ 58 ∷ 0 ∷ 22 ∷ 0 ∷ 0 ∷ 0 ∷ 0 ∷ 0 ∷ 7 ∷ [])
    ∷ (27 ∷ 28 ∷ 25 ∷ 26 ∷ 24 ∷ 23 ∷ 53 ∷ 0 ∷ 59 ∷ 0 ∷ 45 ∷ 0 ∷ 0 ∷ 0 ∷ 0 ∷ 53 ∷ 54 ∷ 0 ∷ [])
    ∷ (0 ∷ 52 ∷ 32 ∷ 0 ∷ 64 ∷ 66 ∷ 0 ∷ 0 ∷ 48 ∷ 47 ∷ 0 ∷ 0 ∷ 0 ∷ 0 ∷ 51 ∷ 60 ∷ 65 ∷ 0 ∷ [])
    ∷ (4 ∷ 0 ∷ 0 ∷ 0 ∷ 57 ∷ 56 ∷ 55 ∷ 67 ∷ 3 ∷ 49 ∷ 50 ∷ 0 ∷ 0 ∷ 46 ∷ [])
    ∷ [])

-- By nonterminal: where its column of `yytable` starts.
unfoldable pub yypgoto : List ℤ
yypgoto = rows (
    (negsuc 52 ∷ negsuc 52 ∷ negsuc 46 ∷ negsuc 28 ∷ negsuc 10 ∷ negsuc 1 ∷ negsuc 52 ∷ [])
    ∷ (negsuc 52 ∷ negsuc 52 ∷ negsuc 52 ∷ negsuc 39 ∷ negsuc 51 ∷ negsuc 14 ∷ negsuc 52 ∷ [])
    ∷ (negsuc 52 ∷ pos 0 ∷ negsuc 52 ∷ negsuc 52 ∷ negsuc 52 ∷ negsuc 18 ∷ [])
    ∷ [])

-- By nonterminal: the state to go to if `yytable` says nothing.
unfoldable pub yydefgoto : List ℤ
yydefgoto = rows (
    (negsuc 0 ∷ pos 15 ∷ pos 100 ∷ pos 16 ∷ pos 17 ∷ pos 18 ∷ pos 63 ∷ pos 19 ∷ pos 20 ∷ [])
    ∷ (pos 21 ∷ pos 22 ∷ pos 23 ∷ pos 91 ∷ pos 24 ∷ pos 83 ∷ pos 25 ∷ pos 26 ∷ pos 98 ∷ [])
    ∷ (pos 27 ∷ pos 28 ∷ [])
    ∷ [])

-- By rule: the symbol that it derives.
unfoldable pub yyr1 : List ℕ
yyr1 = rows (
    (0 ∷ 45 ∷ 46 ∷ 47 ∷ 47 ∷ 48 ∷ 48 ∷ 48 ∷ 48 ∷ 49 ∷ 49 ∷ 49 ∷ 49 ∷ 49 ∷ 49 ∷ 49 ∷ 49 ∷ [])
    ∷ (50 ∷ 50 ∷ 50 ∷ 50 ∷ 50 ∷ 50 ∷ 50 ∷ 50 ∷ 50 ∷ 50 ∷ 50 ∷ 50 ∷ 50 ∷ 50 ∷ 50 ∷ 50 ∷ [])
    ∷ (51 ∷ 51 ∷ 51 ∷ 51 ∷ 51 ∷ 51 ∷ 51 ∷ 51 ∷ 51 ∷ 51 ∷ 51 ∷ 51 ∷ 52 ∷ 53 ∷ 54 ∷ 55 ∷ [])
    ∷ (55 ∷ 55 ∷ 56 ∷ 56 ∷ 57 ∷ 57 ∷ 57 ∷ 58 ∷ 58 ∷ 59 ∷ 59 ∷ 59 ∷ 60 ∷ 60 ∷ 60 ∷ 61 ∷ [])
    ∷ (61 ∷ 62 ∷ 62 ∷ 63 ∷ 64 ∷ [])
    ∷ [])

-- By rule: the length of its right-hand side.
unfoldable pub yyr2 : List ℕ
yyr2 = rows (
    (0 ∷ 2 ∷ 1 ∷ 3 ∷ 2 ∷ 2 ∷ 2 ∷ 3 ∷ 1 ∷ 1 ∷ 1 ∷ 1 ∷ 1 ∷ 1 ∷ 1 ∷ 2 ∷ 1 ∷ 1 ∷ 1 ∷ 1 ∷ 1 ∷ [])
    ∷ (1 ∷ 3 ∷ 3 ∷ 3 ∷ 3 ∷ 3 ∷ 3 ∷ 3 ∷ 2 ∷ 2 ∷ 2 ∷ 4 ∷ 1 ∷ 1 ∷ 1 ∷ 1 ∷ 1 ∷ 1 ∷ 1 ∷ 1 ∷ 1 ∷ [])
    ∷ (1 ∷ 1 ∷ 1 ∷ 3 ∷ 9 ∷ 5 ∷ 5 ∷ 7 ∷ 7 ∷ 2 ∷ 4 ∷ 0 ∷ 1 ∷ 3 ∷ 6 ∷ 6 ∷ 0 ∷ 1 ∷ 3 ∷ 1 ∷ 1 ∷ [])
    ∷ (1 ∷ 5 ∷ 6 ∷ 1 ∷ 3 ∷ 1 ∷ 1 ∷ [])
    ∷ [])

abbrev pub yyntokens : ℕ
yyntokens = 45

abbrev pub yylast : ℕ
yylast = 468

abbrev pub yyfinal : ℕ
yyfinal = 43

abbrev pub yymaxdepth : ℕ
yymaxdepth = 10000
