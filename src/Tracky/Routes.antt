-- ===== src/Tracky/Routes.antt =====
-- tracky/src/trackeroo/routes.go: the streets, in UTF-8, and the choice of a route.
use trackeroo.Base.{
  ℕ, List, [], ◌∷◌, ◌++◌, Bytes, codes, none, some, get_elem?, Outcome, returned, panicked,
}

abbrev pub streets : List Bytes
streets =
    codes "Piazza dei Cavalieri, Pisa, Italy, 56126"
    ∷ codes "Borgo Stretto, Pisa, Italy, 56127"
    ∷ codes "Via San Frediano, Pisa, Italy, 56126"
    ∷ codes "Lungarno Mediceo, Pisa, Italy, 56127"
    ∷ codes "Via San Martino, Pisa, Italy, 56125"
    ∷ codes "Via di Gargalone, Pisa, Italy, 56127"
    ∷ codes "Via Asmara, Pisa, Italy, 56127"
    ∷ codes "Via Putignano, Pisa, Italy, 56127"
    ∷ codes "Via Fagiana, Pisa, Italy, 56127"
    ∷ codes "Via Santa Bona, Pisa, Italy, 56127"
    ∷ codes "Via Fillungo, Lucca, Italy, 55100"
    ∷ codes "Piazza Napoleone, Lucca, Italy, 55100"
    ∷ codes "Via Santa Croce, Lucca, Italy, 55100"
    ∷ codes "Via San Paolino, Lucca, Italy, 55100"
    ∷ codes "Via Guinigi, Lucca, Italy, 55100"
    ∷ codes "Via del Cimitero, Lucca, Italy, 55100"
    ∷ codes "Via di Vicopelago, Lucca, Italy, 55100"
    ∷ codes "Via dei Bollori, Lucca, Italy, 55100"
    ∷ codes "Via delle Fornacette, Lucca, Italy, 55100"
    ∷ codes "Via Stefano Tofanelli, Lucca, Italy, 55100"
    ∷ codes "Via dei Calzaiuoli, Firenze, Italy, 50123"
    ∷ codes "Via Tornabuoni, Firenze, Italy, 50123"
    ∷ codes "Borgo San Lorenzo, Firenze, Italy, 50123"
    ∷ codes "Via della Vigna Nuova, Firenze, Italy, 50123"
    ∷ codes "Via Ghibellina, Firenze, Italy, 50122"
    ∷ codes "Via del Gelsomino, Firenze, Italy, 50125"
    ∷ codes "Via Livorno, Firenze, Italy, 50142"
    ∷ codes "Via Gherardo Starnina, Firenze, Italy, 50142"
    ∷ codes "Via della Casella, Firenze, Italy, 50142"
    ∷ codes "Via Antonio del Pollaiolo, Firenze, Italy, 50142"
    ∷ codes "Via Grande, Livorno, Italy, 57123"
    ∷ codes "Piazza della Repubblica, Livorno, Italy, 57123"
    ∷ codes "Via Magenta, Livorno, Italy, 57123"
    ∷ codes "Scali delle Cantine, Livorno, Italy, 57123"
    ∷ codes "Via Ricasoli, Livorno, Italy, 57123"
    ∷ codes "Via di Quercianella, Livorno, Italy, 57128"
    ∷ codes "Via del Littorale, Livorno, Italy, 57128"
    ∷ codes "Viale di Antignano, Livorno, Italy, 57128"
    ∷ codes "Via del Pastore, Livorno, Italy, 57128"
    ∷ codes "Via Uberto Mondolfi, Livorno, Italy, 57128"
    ∷ codes "Corso Matteotti, Pontedera, Italy, 56025"
    ∷ codes "Piazza Curtatone, Pontedera, Italy, 56025"
    ∷ codes "Via Roma, Pontedera, Italy, 56025"
    ∷ codes "Via Dante Alighieri, Pontedera, Italy, 56025"
    ∷ codes "Via Verdi, Pontedera, Italy, 56025"
    ∷ codes "Via di Gello, Pontedera, Italy, 56025"
    ∷ codes "Via di Lavaiano, Pontedera, Italy, 56025"
    ∷ (codes "Via dell" ++ (226 ∷ 128 ∷ 153 ∷ codes "Industria, Pontedera, Italy, 56025"))
    ∷ codes "Via delle Colombaie, Pontedera, Italy, 56025"
    ∷ codes "Via della Fornace, Pontedera, Italy, 56025"
    ∷ codes "Via della Repubblica, Poggibonsi, Italy, 53036"
    ∷ codes "Via Trento, Poggibonsi, Italy, 53036"
    ∷ codes "Via San Gimignano, Poggibonsi, Italy, 53036"
    ∷ codes "Via Borgaccio, Poggibonsi, Italy, 53036"
    ∷ codes "Via Sardegna, Poggibonsi, Italy, 53036"
    ∷ (codes "Via dell" ++ (226 ∷ 128 ∷ 153 ∷ codes "Ospedale, Poggibonsi, Italy, 53036"))
    ∷ codes "Via Abruzzo, Poggibonsi, Italy, 53036"
    ∷ codes "Via Lazio, Poggibonsi, Italy, 53036"
    ∷ codes "Via Sicilia, Poggibonsi, Italy, 53036"
    ∷ codes "Via Calabria, Poggibonsi, Italy, 53036"
    ∷ (codes "Viale Giosu" ++ (195 ∷ 168 ∷ codes " Carducci, Viareggio, Italy, 55049"))
    ∷ codes "Piazza Mazzini, Viareggio, Italy, 55049"
    ∷ codes "Via Cesare Battisti, Viareggio, Italy, 55049"
    ∷ codes "Via Santa Maria Goretti, Viareggio, Italy, 55049"
    ∷ codes "Via Coppino, Viareggio, Italy, 55049"
    ∷ codes "Via delle Cavalle, Viareggio, Italy, 55049"
    ∷ codes "Via Marina di Levante, Viareggio, Italy, 55049"
    ∷ codes "Via dei Partigiani, Viareggio, Italy, 55049"
    ∷ codes "Via Santa Gemma Galgani, Viareggio, Italy, 55049"
    ∷ codes "Via della Ferrovia, Viareggio, Italy, 55049"
    ∷ codes "Via Vittorio Emanuele, Camaiore, Italy, 55041"
    ∷ codes "Via XX Settembre, Camaiore, Italy, 55041"
    ∷ codes "Via Roma, Camaiore, Italy, 55041"
    ∷ codes "Via del Secco, Camaiore, Italy, 55041"
    ∷ codes "Via dei Ghivizzani, Camaiore, Italy, 55041"
    ∷ codes "Via Mentana, Camaiore, Italy, 55041"
    ∷ codes "Via Montecassino, Camaiore, Italy, 55041"
    ∷ codes "Via Alessandro Volta, Camaiore, Italy, 55041"
    ∷ codes "Via dei Papaveri, Camaiore, Italy, 55041"
    ∷ codes "Via Montemagno, Camaiore, Italy, 55041"
    ∷ (codes "Via di Citt" ++ (195 ∷ 160 ∷ codes ", Siena, Italy, 53100"))
    ∷ codes "Banchi di Sopra, Siena, Italy, 53100"
    ∷ codes "Via dei Rossi, Siena, Italy, 53100"
    ∷ codes "Via Pantaneto, Siena, Italy, 53100"
    ∷ codes "Via della Sapienza, Siena, Italy, 53100"
    ∷ codes "Strada Grossetana, Siena, Italy, 53100"
    ∷ codes "Strada Massetana Romana, Siena, Italy, 53100"
    ∷ codes "Via Paolo Mascagni, Siena, Italy, 53100"
    ∷ codes "Strada del Ruffolo, Siena, Italy, 53100"
    ∷ codes "Via di Fiera Vecchia, Siena, Italy, 53100"
    ∷ []

-- `streets[i]`, which panics out of range
unfoldable pub street : ℕ → Outcome Bytes
street i = elim (get_elem? streets i) [ none ↦ panicked | some s ↦ returned s ]

-- After a first route the new one begins where the last one ended. The arguments `i` and `j` are the
-- random numbers; the first is drawn only where it is used.
unfoldable pub get_route : Bytes → ℕ → ℕ → Outcome (List Bytes)
unfolding street
get_route [] i j = elim (street i) [
  | panicked ↦ panicked
  | returned s ↦ elim (street j) [ panicked ↦ panicked | returned t ↦ returned (s ∷ t ∷ []) ]
]
get_route (c ∷ last_end) i j = elim (street j) [
  | panicked ↦ panicked
  | returned t ↦ returned ((c ∷ last_end) ∷ t ∷ [])
]
